-- ===== src/Node/Tests.antt =====
-- A node with one child.
use p2p_live_streming_system.Prelude.{
  ℕ, ◌+◌, ◌≡◌, refl, List, [], ◌∷◌, ◌++◌, some, true, false, arith, at, replicate,
}
use p2p_live_streming_system.Prelude.Int.{pos, ◌-ℤ◌}
use p2p_live_streming_system.Words.{htons}
use p2p_live_streming_system.Wire.{NodeStatus, Timeval, IsNodeStatus, copy_bytes_to_node_status}
use p2p_live_streming_system.Block.{Block, zero_info}
use p2p_live_streming_system.Packet.{Endpoint, Mac}
use p2p_live_streming_system.Fault.{ok, err, bad_index}
use p2p_live_streming_system.Node.{
  Node, World, bit, parent_id, my_status, parent_status, send_packet, stamp,
}
use p2p_live_streming_system.Node.Send.{send_initial_status, initial_status_proto}
use p2p_live_streming_system.Node.Join.{node_initial_status}
use p2p_live_streming_system.Node.Reconnect.{node_connect, node_depart}
use p2p_live_streming_system.Node.Invariant.{Counted}
use p2p_live_streming_system.Node.Faults.{node_connect-bad_index, node_depart-twice}
use p2p_live_streming_system.Node.Initial.{
  initial_status, send_initial_status_lem, node_initial_status-initial_status,
}

abbrev zero_time : Timeval
zero_time = record { tv_sec = pos 0; tv_usec = pos 0 }

abbrev no_mac : Mac
no_mac = record { m0 = 0; m1 = 0; m2 = 0; m3 = 0; m4 = 0; m5 = 0 }

abbrev endpoint : Endpoint
endpoint = record { mac = no_mac; ip = 0; port = 5000 }

abbrev pub status : ℕ → NodeStatus
status id = record {
  info = zero_info;
  id = id;
  ipaddr = 7;
  p_ipaddr = 8;
  port = 5000;
  timestamp = zero_time;
}

abbrev empty_block : Block
empty_block = record { info = zero_info; prev = zero_info }

abbrev pub still_world : World
still_world = record { now = λ k. zero_time; rand = λ k. 0; junk = λ k. 0; wide_shift = λ b k. 0 }

-- A child with the id 9 in the first slot, and one entry in the list, which is not the origin.
abbrev pub one_child : Node
one_child = record {
  source = endpoint;
  dst = λ i. endpoint;
  gateway_mac = no_mac;
  is_setup = false;
  current_child_num = pos 1;
  connected_nodes = 1;
  is_begin_streaming = true;
  is_begin_playing = false;
  is_retry = false;
  nodes_status = λ i. status (9 + i);
  nodes_list = status 5 ∷ [];
  except_list = [];
  current_cache = pos 300;
  total_buffer = 0;
  played_buffer = 0;
  current_node_id = 0;
  cluster_seqs = some (1, 0);
  current_block = empty_block;
  child_block = λ i. empty_block;
  webm_header = [];
  timecode_offset = 513;
  node_timecode_offset = 0;
  is_get_timecode_offset = false;
  total_block_num = 0;
  start_timestamp = zero_time;
  timestamp = zero_time;
  setup_timestamp = zero_time;
  listupdate_timestamp = zero_time;
  depart_timestamp = zero_time;
  retry_timestamp = zero_time;
  played_timestamp = zero_time;
  depart_num = 0;
  detach_num = 0;
  sent = [];
}

pub one_child-Counted : Counted one_child
one_child-Counted = record { count = refl; bits = omega arith }

-- A packet from a node with the id 9, and its first bytes from another.
abbrev packet : List ℕ
packet = replicate 19 0 ++ (9 ∷ (replicate 10 0))

packet_id : (copy_bytes_to_node_status (my_status one_child) (at packet)).id ≡ 9
unfolding copy_bytes_to_node_status htons
packet_id = refl

node_connect-bad_index_example : node_connect one_child still_world (at packet) ≡ err bad_index
node_connect-bad_index_example =
    node_connect-bad_index one_child still_world (at packet) refl refl refl refl
      (omega (arith, packet_id))

node_depart-twice_example :
    (node_depart
      (node_depart one_child still_world (at packet))
      still_world
      (at packet)).current_child_num
    ≡ pos 1 -ℤ pos 1 -ℤ pos 1
node_depart-twice_example =
    node_depart-twice one_child still_world still_world (at packet) (omega (arith, packet_id))
      (omega (arith, packet_id))

send_initial_status_lem_example :
    send_initial_status one_child 1
    ≡ ok (send_packet one_child (initial_status_proto ∷ initial_status one_child 1) 1)
send_initial_status_lem_example =
    send_initial_status_lem one_child 1 one_child-Counted (omega arith) refl

status_fits : IsNodeStatus (status 10) × IsNodeStatus (status 12)
status_fits = ground arith

node_initial_status-initial_status_example :
    let k =
      node_initial_status one_child still_world (at (initial_status one_child 1 ++ (1 ∷ []))) 98 in
    (my_status k ≡ record (status 10) { timestamp = zero_time })
    × (parent_status k ≡ record (status 12) { timestamp = stamp one_child still_world 2 })
    × (bit k.connected_nodes parent_id ≡ true)
node_initial_status-initial_status_example =
    node_initial_status-initial_status one_child one_child 1 98 still_world (1 ∷ []) status_fits.0
      status_fits.1 refl
