-- ===== src/Wire/Tests.antt =====
-- A status on the wire.
use p2p_live_streming_system.Prelude.{ℕ, ◌≡◌, refl, List, [], ◌∷◌, ◌++◌, arith, at}
use p2p_live_streming_system.Prelude.Int.{pos, negsuc}
use p2p_live_streming_system.Wire.{
  BlockInfo, NodeStatus, IsBlockInfo, IsNodeStatus, copy_node_status_to_bytes,
  copy_bytes_to_node_status,
}
use p2p_live_streming_system.Wire.RoundTrip.{node_status_round_trip}

abbrev sample_info : BlockInfo
sample_info = record {
  pos = 70000;
  seq = 258;
  bytes = 1000;
  total_piece_bytes = 2300;
  cluster_seq = 513;
  total_pieces = 3;
  piece_seq = 1;
  status = 1;
  layer = 2;
}

abbrev sample_status : NodeStatus
sample_status = record {
  info = sample_info;
  id = 300;
  ipaddr = 0x0a01a8c0;
  p_ipaddr = 0x0201a8c0;
  port = 5000;
  timestamp = record { tv_sec = pos 3; tv_usec = pos 4 };
}

abbrev old_status : NodeStatus
old_status = record sample_status {
  id = 1;
  timestamp = record { tv_sec = negsuc 0; tv_usec = pos 9 };
}

sample_info_fits : IsBlockInfo sample_info
sample_info_fits = ground arith

sample_status_fits : IsNodeStatus sample_status
sample_status_fits = ground arith

node_status_round_trip_example :
    copy_bytes_to_node_status old_status (at (copy_node_status_to_bytes sample_status ++ (7 ∷ [])))
    ≡ record sample_status { timestamp = old_status.timestamp }
node_status_round_trip_example =
    node_status_round_trip sample_status old_status (7 ∷ []) sample_status_fits

abbrev wire_bytes : List ℕ
wire_bytes =
    0 ∷ 1 ∷ 17 ∷ 112 ∷ 0 ∷ 0 ∷ 1 ∷ 2 ∷ 3 ∷ 232 ∷ 8 ∷ 252 ∷ 2 ∷ 1 ∷ 3 ∷ 1 ∷ 1 ∷ 2 ∷ 1 ∷ 44 ∷ 10 ∷ 1
    ∷ 168 ∷ 192 ∷ 2 ∷ 1 ∷ 168 ∷ 192 ∷ 19 ∷ 136 ∷ []

node_status_bytes_lem : copy_node_status_to_bytes sample_status ≡ wire_bytes
unfolding copy_node_status_to_bytes
node_status_bytes_lem = refl

abbrev network_order : List ℕ
network_order = wire_bytes
