-- ===== src/Node/Reconnect.antt =====
-- Changing the parent (src/common/p2p.c: NodeConnect, NodeDepart, NodeDetach, NodeAccept, NodeUnaccept,
-- NodeRetry).
use p2p_live_streming_system.Prelude.{
  ℕ, ◌+◌, ◌%◌, ◌^◌, [], none, some, Bool, true, false, ◌==◌, if◌then◌else◌, Buf, shift,
}
use p2p_live_streming_system.Prelude.Int.{pos, ◌-ℤ◌, ltb_ℤ}
use p2p_live_streming_system.Words.{u8, u16, load_u16, htons, htonl}
use p2p_live_streming_system.Wire.{NodeStatus, copy_bytes_to_node_status}
use p2p_live_streming_system.Block.{renew_block}
use p2p_live_streming_system.Fault.{Result, ok, err, null_pointer, ◌>>=◌}
use p2p_live_streming_system.Peers.{get_prior_list, get_list, except_list_push}
use p2p_live_streming_system.Node.{
  Node, World, bit, my_id, tmp_id, parent_id, origin_id, my_status, parent_status, set_status,
  set_bit, clear_bit, the_cluster, stamp, default_cache, renew_dst_ip_and_mac,
}
use p2p_live_streming_system.Node.Slots.{check_child_num, is_duplicated_child, g_to_pip}
use p2p_live_streming_system.Node.Send.{send_unaccept, send_accept, send_detach, send_connect}
use p2p_live_streming_system.Node.Join.{renew_child, take_slot, add_timecode}

-- NodeConnect, the child stored in the slot `child_id`.
unfoldable pub connect_child : Node → World → Buf → NodeStatus → ℕ → Node
connect_child n w p status child_id =
    let n1 = set_status n child_id (copy_bytes_to_node_status (n.nodes_status child_id) p) in
    let n2 = renew_dst_ip_and_mac n1 (htonl status.ipaddr) status.port child_id in
    let block = n2.child_block child_id in
    let n3 = renew_child n2 child_id (
      renew_block (record block {
        info =
            (let i = block.info in
              record i { cluster_seq = (n2.nodes_status child_id).cluster_seq });
      })) in
    take_slot (send_accept n3 child_id) w child_id

-- NodeConnect
unfoldable pub node_connect : Node → World → Buf → Result Node
node_connect n w p =
    let status = copy_bytes_to_node_status (my_status n) p in
    let tmp = renew_dst_ip_and_mac n (htonl status.ipaddr) status.port tmp_id in
    if ltb_ℤ n.current_cache (pos default_cache)
    then ok (send_unaccept tmp tmp_id)
    else elim (check_child_num n) [
      | none ↦ ok (send_unaccept tmp tmp_id)
      | some child_id ↦ do
        duplicated ← is_duplicated_child n status.id
        ok (if duplicated then n else connect_child n w p status child_id)
    ]

-- A round of NodeDepart's loop over the slots: the node and the local `cluster_seq`. InitNodeStatus
-- works on a copy, so the status stays.
abbrev pub depart_round : ℕ → Node × ℕ → ℕ → Node × ℕ
depart_round depart_id (n, cluster_seq) i =
    if (n.nodes_status i).id == depart_id
    then (
      record n {
        current_child_num = n.current_child_num -ℤ pos 1;
        connected_nodes = clear_bit n.connected_nodes i;
      },
      htons ((n.child_block i).prev.cluster_seq),
    )
    else (n, cluster_seq)

-- NodeDepart: `cluster_seq` is not initialised.
unfoldable pub node_depart : Node → World → Buf → Node
node_depart n w p =
    let status = copy_bytes_to_node_status (my_status n) p in
    let ipaddr_n = htonl (g_to_pip n status) in
    let (n', cluster_seq) =
      depart_round status.id (depart_round status.id (n, w.junk 0 % 2 ^ 16) 0) 1 in
    send_detach (renew_dst_ip_and_mac n' ipaddr_n status.port tmp_id) tmp_id cluster_seq

-- The entry to connect to next, and whether it came from the list of candidates. Where there is no
-- candidate the origin is looked for, and NULL is dereferenced if it is not found.
unfoldable pub prior_node : Node → Result (NodeStatus × Bool)
prior_node n = elim (get_prior_list (my_status n).layer n.except_list n.nodes_list) [
  | some s ↦ ok (s, true)
  | none ↦ do
    found ← get_list n.nodes_list origin_id
    elim found [ some s ↦ ok (s, false) | none ↦ err null_pointer ]
]

-- The end of NodeDetach, NodeUnaccept and NodeRetry.
abbrev pub connect_to : Node → NodeStatus → Node
connect_to n s = send_connect (renew_dst_ip_and_mac n (htonl (g_to_pip n s)) s.port tmp_id) tmp_id

-- NodeDetach
unfoldable pub node_detach : Node → World → Buf → Result Node
node_detach n w p = do
  let my = my_status n
  let info = my.info
  let n1 =
      set_status
        (record n {
          is_begin_streaming = false;
          connected_nodes = clear_bit n.connected_nodes parent_id;
          depart_timestamp = stamp n w 0;
        })
        my_id (record my { info = record info { cluster_seq = htons (load_u16 p) } })
  (s, _) ← prior_node n1
  let parent = parent_status n1
  ok (
      connect_to
        (set_status (record n1 { retry_timestamp = stamp n w 1 }) parent_id
          (record parent { id = s.id }))
        s)

-- NodeAccept
unfoldable pub node_accept : Node → World → Buf → Node
node_accept n w p =
    let stamped = (let s = parent_status n in record s { timestamp = stamp n w 0 }) in
    let parent = copy_bytes_to_node_status stamped p in
    let my = my_status n in
    let info = my.info in
    let n' = record n {
      is_retry = false;
      node_timecode_offset = add_timecode w 8 0 (shift p 30) 0;
      except_list = [];
      connected_nodes =
          if bit n.connected_nodes parent_id
          then n.connected_nodes
          else set_bit n.connected_nodes parent_id;
    } in
    set_status (set_status n' parent_id parent) my_id
      (record my { info = record info { layer = u8 (parent.layer + 1) } })

-- The list of excepted ids is dropped when the origin is the next to try.
abbrev pub drop_except : Node → Bool → Node
drop_except n found = if found then n else record n { except_list = [] }

-- NodeUnaccept
unfoldable pub node_unaccept : Node → Buf → Result Node
node_unaccept n p = do
  let except_id = htons (load_u16 p)
  let n1 = record n { except_list = except_list_push (my_status n).id n.except_list except_id }
  (s, found) ← prior_node n1
  ok (connect_to (drop_except n1 found) s)

-- NodeRetry
unfoldable pub node_retry : Node → World → Result Node
node_retry n w = do
  let except_id = (parent_status n).id
  let n1 = record n {
    is_retry = true;
    retry_timestamp = stamp n w 0;
    except_list = except_list_push (my_status n).id n.except_list except_id;
  }
  (s, found) ← prior_node n1
  cluster ← the_cluster n1
  let n2 = drop_except n1 found
  let my = my_status n2
  let info = my.info
  ok (
      connect_to
        (set_status n2 my_id (record my { info = record info { cluster_seq = u16 cluster.0 } })) s)
