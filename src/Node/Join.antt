-- ===== src/Node/Join.antt =====
-- Joining the network (src/common/p2p.c: NodeSetup, NodeID, NodeInitialStatus, NodeAdvertise).
use p2p_live_streming_system.Prelude.{
  ℕ, zero, suc, ◌+◌, ◌-◌, ◌*◌, ◌/◌, ◌^◌, List, Option, none, some, Bool, false, ◌==◌, ltb,
  if◌then◌else◌, ◌&&◌, ◌||◌, Buf, shift,
}
use p2p_live_streming_system.Prelude.Int.{pos, ◌+ℤ◌, ltb_ℤ}
use p2p_live_streming_system.Words.{u8, u16, u64, load_u16, load_u32, htons, htonl}
use p2p_live_streming_system.Wire.{NodeStatus, copy_bytes_to_node_status}
use p2p_live_streming_system.Block.{Block, renew_block, init_block}
use p2p_live_streming_system.Fault.{Result, ok, ◌>>=◌}
use p2p_live_streming_system.Peers.{add_status}
use p2p_live_streming_system.Node.{
  Node, World, my_id, tmp_id, parent_id, my_status, parent_status, set_status, set_bit, the_cluster,
  stamp, update, default_cache, renew_dst_ip_and_mac,
}
use p2p_live_streming_system.Node.Slots.{check_child_num, generate_rnd_id, g_to_pip}
use p2p_live_streming_system.Node.Send.{
  send_advertise, send_initial_status, send_webm_header, send_setup,
}

-- RenewBlock of a child's block at a cluster, and the copy of its first 18 bytes to the child's
-- status, with the child's layer.
abbrev pub renew_child : Node → ℕ → Block → Node
renew_child n child_id b =
    let s = n.nodes_status child_id in
    set_status (record n { child_block = update n.child_block child_id b }) child_id
      (record s { info = record b.prev { layer = u8 ((my_status n).layer + 1) } })

-- The identity of a new child: the origin gives it the latest id and the address that the packet
-- came from, any other node takes both from the data.
abbrev identify_child : Node → NodeStatus → Buf → ℕ → ℕ → NodeStatus
identify_child n s p ipaddr node_port =
    let s' = record s { port = node_port; p_ipaddr = htonl (load_u32 p) } in
    if (my_status n).id == 0
    then record s' { id = n.current_node_id; ipaddr = htonl ipaddr }
    else record s' { id = htons (load_u16 (shift p 4)); ipaddr = htonl (load_u32 (shift p 6)) }

-- A slot taken: the last lines of NodeSetup and of NodeConnect.
abbrev pub take_slot : Node → World → ℕ → Node
take_slot n w child_id =
    let n' =
      set_status n child_id
        (let s = n.nodes_status child_id in record s { timestamp = stamp n w 0 }) in
    record n' {
      connected_nodes = set_bit n'.connected_nodes child_id;
      current_child_num = n'.current_child_num +ℤ pos 1;
    }

-- NodeSetup, the child accepted in the slot `child_id`.
unfoldable pub accept_child : Node → World → Buf → ℕ → ℕ → ℕ → Result Node
accept_child n w p ipaddr node_port child_id = do
  cluster ← the_cluster n
  let n1 = renew_dst_ip_and_mac n ipaddr node_port child_id
  let block = n1.child_block child_id
  let renewed =
      renew_block
        (record block { info = (let i = block.info in record i { cluster_seq = u16 cluster.1 }) })
  let prev = renewed.prev
  let n2 =
      renew_child n1 child_id (record renewed {
        prev = record prev { cluster_seq = u16 (prev.cluster_seq + 2 ^ 16 - 1) };
      })
  let n3 = set_status n2 child_id (identify_child n2 (n2.nodes_status child_id) p ipaddr node_port)
  n4 ← send_initial_status n3 child_id
  n5 ← send_webm_header n4 child_id
  ok (take_slot n5 w child_id)

-- `rnd_child_id == MY_ID`
abbrev pub is_my_id : Option ℕ → Bool
is_my_id none = false
is_my_id (some id) = id == my_id

-- NodeSetup
unfoldable pub node_setup : Node → World → Buf → ℕ → ℕ → Result Node
node_setup n w p ipaddr port =
    let node_port = htons port in
    let rnd_child_id = generate_rnd_id n (w.rand 0) 0 (n.current_child_num +ℤ pos 1) in
    let tmp = renew_dst_ip_and_mac n ipaddr node_port tmp_id in
    if is_my_id rnd_child_id
    then (if ltb_ℤ n.current_cache (pos default_cache)
        then send_advertise tmp tmp_id (some my_id)
        else elim (check_child_num n) [
          | some child_id ↦ accept_child n w p ipaddr node_port child_id
          | none ↦
              send_advertise tmp tmp_id (generate_rnd_id tmp (w.rand 1) 1 tmp.current_child_num)
        ])
    else send_advertise tmp tmp_id rnd_child_id

-- NodeID
unfoldable pub node_id : Node → Buf → Node
node_id n p =
    let my = my_status n in
    set_status n my_id
      (record my { id = htons (load_u16 p); ipaddr = htonl (load_u32 (shift p 2)) })

-- `data[i] << 8*i`: the shift of an int, undefined from 32 bits on and where it meets the sign.
abbrev pub shifted_byte : World → ℕ → ℕ → ℕ
shifted_byte w i b =
    if ltb i 3 || (i == 3 && ltb b 128) then b * 2 ^ (8 * i) else w.wide_shift b (8 * i)

-- The loop that adds the eight bytes of an offset to NODE_TIMECODE_OFFSET.
unfoldable pub add_timecode : World → ℕ → ℕ → Buf → ℕ → ℕ
add_timecode w zero i p offset = offset
add_timecode w (suc rounds) i p offset =
    add_timecode w rounds (i + 1) p (u64 (offset + shifted_byte w i (p i)))

-- The loop over the statuses of a packet: `n` entries from byte `offset` on. `current` is the local
-- variable, whose time stamp is not initialised.
unfoldable pub add_statuses : ℕ → ℕ → Buf → NodeStatus → List NodeStatus → List NodeStatus
add_statuses zero offset p current l = l
add_statuses (suc n) offset p current l =
    add_statuses n (offset + 30) p current
      (add_status l (copy_bytes_to_node_status current (shift p offset)))

-- NodeInitialStatus
unfoldable pub node_initial_status : Node → World → Buf → ℕ → Node
node_initial_status n w p data_bytes =
    let status_num = (data_bytes - 8) / 30 in
    let my = copy_bytes_to_node_status (my_status n) (shift p 8) in
    let parent = copy_bytes_to_node_status (parent_status n) (shift p 38) in
    let block = init_block in
    let parent' = record parent { timestamp = stamp n w 2 } in
    record n {
      node_timecode_offset = add_timecode w 8 0 p n.node_timecode_offset;
      nodes_status = update (update n.nodes_status my_id my) parent_id parent';
      cluster_seqs = some (w.junk 0, w.junk 1);
      current_block = record block {
        info = (let i = block.info in record i { cluster_seq = my.cluster_seq });
        prev = (let i = block.prev in record i { cluster_seq = my.cluster_seq });
      };
      is_get_timecode_offset = false;
      connected_nodes = set_bit n.connected_nodes parent_id;
      nodes_list = add_statuses (status_num - 2) 68 p my n.nodes_list;
      listupdate_timestamp = stamp n w 0;
      depart_timestamp = stamp n w 1;
      is_setup = false;
    }

-- NodeAdvertise
unfoldable pub node_advertise : Node → World → Buf → ℕ → Node
node_advertise n w p data_bytes =
    let ad = copy_bytes_to_node_status (my_status n) p in
    let n1 = record n { nodes_list = add_statuses (data_bytes / 30 - 1) 30 p ad n.nodes_list } in
    let n2 = renew_dst_ip_and_mac n1 (htonl (g_to_pip n1 ad)) ad.port parent_id in
    send_setup (record n2 { setup_timestamp = stamp n2 w 0 })
