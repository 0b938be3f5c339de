-- ===== src/Node/Slots.antt =====
-- The slots of the children (src/common/p2p.c: CheckChildNum, GenerateRndID, IsDuplicatedChild, GtoPIP).
-- An id of -1 is `none`.
use p2p_live_streming_system.Prelude.{
  ℕ, zero, suc, ◌+◌, ◌%◌, Option, none, some, Bool, true, false, ◌==◌, ltb, if◌then◌else◌, not,
}
use p2p_live_streming_system.Prelude.Int.{ℤ, pos, pos_part, neg_part, ltb_ℤ}
use p2p_live_streming_system.Wire.{NodeStatus}
use p2p_live_streming_system.Fault.{Result, ok, err, bad_index, ◌>>=◌}
use p2p_live_streming_system.Node.{Node, bit, my_id, my_status, max_child_num, max_node_num}

-- The loop of CheckChildNum from slot `i` on, with `rounds` to go.
unfoldable pub free_loop : ℕ → ℕ → ℕ → Option ℕ
free_loop zero i connected = none
free_loop (suc rounds) i connected =
    if not (bit connected i) then some i else free_loop rounds (i + 1) connected

-- CheckChildNum
unfoldable pub check_child_num : Node → Option ℕ
check_child_num n =
    if ltb_ℤ n.current_child_num (pos max_child_num)
    then free_loop max_child_num 0 n.connected_nodes
    else none

-- The loop of GenerateRndID.
unfoldable pub rnd_loop : ℕ → ℕ → ℕ → ℕ → ℕ → Option ℕ
rnd_loop zero i count rnd_val connected = none
rnd_loop (suc rounds) i count rnd_val connected =
    let count' = if bit connected i then count + 1 else count in
    if count' == rnd_val then some i else rnd_loop rounds (i + 1) count' rnd_val connected

-- GenerateRndID: `rand` is the value of rand(), which is not negative, so that its remainder by
-- `range` is the remainder by the absolute value.
unfoldable pub generate_rnd_id : Node → ℕ → ℕ → ℤ → Option ℕ
generate_rnd_id n rand init_val range =
    let size = pos_part range + neg_part range in
    let rnd_val = if size == 0 then init_val else rand % size + init_val in
    if rnd_val == 0 then some my_id else rnd_loop max_child_num 0 0 rnd_val n.connected_nodes

-- One round of IsDuplicatedChild: NODES_STATUS is read at the id that was asked for.
abbrev duplicate_round : Node → ℕ → ℕ → Bool → Result Bool
duplicate_round n id i ret =
    if bit n.connected_nodes i
    then (if ltb id max_node_num
        then ok (if id == (n.nodes_status id).id then true else ret)
        else err bad_index)
    else ok ret

-- IsDuplicatedChild
unfoldable pub is_duplicated_child : Node → ℕ → Result Bool
is_duplicated_child n id = do ret ← duplicate_round n id 0 false; duplicate_round n id 1 ret

-- GtoPIP
unfoldable pub g_to_pip : Node → NodeStatus → ℕ
g_to_pip n s = if (my_status n).ipaddr == s.ipaddr then s.p_ipaddr else s.ipaddr
