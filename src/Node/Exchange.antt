-- ===== src/Node/Exchange.antt =====
-- Keeping neighbours and lists up to date (src/common/p2p.c: NodeKeepAlive, NodeKeepAliveRes, NodeReqList,
-- NodeResList).
use p2p_live_streming_system.Prelude.{
  ℕ, zero, suc, ◌+◌, ◌/◌, List, Option, none, some, Bool, ◌==◌, ◌&&◌, if◌then◌else◌, Buf, shift,
}
use p2p_live_streming_system.Words.{load_u16, htons}
use p2p_live_streming_system.Wire.{NodeStatus, copy_bytes_to_node_status}
use p2p_live_streming_system.Fault.{Result, ok}
use p2p_live_streming_system.Peers.{merge_status}
use p2p_live_streming_system.Node.{Node, World, bit, my_status, set_status, stamp, max_node_num}
use p2p_live_streming_system.Node.Send.{send_keepalive_res, send_res_list}

-- `(CONNECTED_NODES >> i) & 0x01` and `NODES_STATUS[i].id == id`
abbrev pub is_neighbour : Node → ℕ → ℕ → Bool
is_neighbour n id i = bit n.connected_nodes i && (n.nodes_status i).id == id

-- The last connected slot with the id, from slot `i` on; `none` is -1.
unfoldable pub find_slot : ℕ → ℕ → Node → ℕ → Option ℕ → Option ℕ
find_slot zero i n id found = found
find_slot (suc rounds) i n id found =
    find_slot rounds (i + 1) n id (if is_neighbour n id i then some i else found)

-- NodeKeepAlive
unfoldable pub node_keepalive : Node → Buf → Node
node_keepalive n p = elim (find_slot max_node_num 0 n (htons (load_u16 p)) none) [
  | none ↦ n
  | some dst_id ↦ send_keepalive_res n dst_id
]

-- The loop of NodeKeepAliveRes.
unfoldable pub stamp_slots : ℕ → ℕ → ℕ → World → Node → Node
stamp_slots zero i id w n = n
stamp_slots (suc rounds) i id w n =
    let s = n.nodes_status i in
    stamp_slots rounds (i + 1) id w
      (if is_neighbour n id i then set_status n i (record s { timestamp = stamp n w i }) else n)

-- NodeKeepAliveRes
unfoldable pub node_keepalive_res : Node → World → Buf → Node
node_keepalive_res n w p = stamp_slots max_node_num 0 (htons (load_u16 p)) w n

-- NodeReqList
unfoldable pub node_req_list : Node → Buf → Result Node
node_req_list n p = elim (find_slot max_node_num 0 n (htons (load_u16 p)) none) [
  | none ↦ ok n
  | some dst_id ↦ send_res_list n dst_id
]

-- The loop of NodeResList: `count` statuses from byte `offset` on.
unfoldable pub merge_statuses : ℕ → ℕ → Buf → NodeStatus → List NodeStatus → List NodeStatus
merge_statuses zero offset p current l = l
merge_statuses (suc count) offset p current l =
    merge_statuses count (offset + 30) p current
      (merge_status l (copy_bytes_to_node_status current (shift p offset)))

-- NodeResList
unfoldable pub node_res_list : Node → Buf → ℕ → Node
node_res_list n p data_bytes = record n {
  nodes_list = merge_statuses (data_bytes / 30) 0 p (my_status n) n.nodes_list;
}
