-- ===== src/Program/Tests.antt =====
-- A program with one child, on a file of a header of two bytes and one cluster.
use p2p_live_streming_system.Prelude.{
  none, ℕ, ◌+◌, ◌≤◌, ◌≡◌, refl, List, [], ◌∷◌, ◌++◌, some, false, arith, length, replicate, take,
  drop, at,
}
use p2p_live_streming_system.Words.{htons}
use p2p_live_streming_system.Wire.{copy_bytes_to_node_status}
use p2p_live_streming_system.Node.Reconnect.{node_depart}
use p2p_live_streming_system.Ebml.{footer, get_chank, get_ebml_id, get_data_bytes, msb_scan, carry}
use p2p_live_streming_system.Packet.{IsEndpoint, receive, handler_data}
use p2p_live_streming_system.Fault.{ok, Ensures}
use p2p_live_streming_system.Block.{
  Block, zero_info, status_init, max_block_bytes, get_next_block_by_bytes, next_block_init,
  get_chank_by_bytes, chank_loop, assign_block_info_by_sb,
}
use p2p_live_streming_system.Block.Bounds.{IsReady, AllFits, next-AllFits}
use p2p_live_streming_system.Store.{Cluster, zero_chank}
use p2p_live_streming_system.Store.Tests.{empty_store}
use p2p_live_streming_system.Store.Seek.{cal_offset, cluster_offset, search_webm}
use p2p_live_streming_system.Node.{send_packet}
use p2p_live_streming_system.Node.Send.{send_keepalive_res, send_my_id}
use p2p_live_streming_system.Node.Exchange.{node_keepalive, find_slot}
use p2p_live_streming_system.Node.Invariant.{Counted}
use p2p_live_streming_system.Node.Tests.{one_child, one_child-Counted, still_world}
use p2p_live_streming_system.Program.{Program, with_node}
use p2p_live_streming_system.Program.Cache.{send_cache_block, block_buffer}
use p2p_live_streming_system.Program.Frame.{Delivered}
use p2p_live_streming_system.Program.Deliver.{send_cache_block-Delivered}
use p2p_live_streming_system.Program.Receive.{
  goes_on, select, peer_dispatch, origin_dispatch, peer_frame, peer_round, origin_frame, os_port,
}
use p2p_live_streming_system.Program.Dispatch.{StaysCounted}
use p2p_live_streming_system.Program.Rounds.{Expects, origin_frame-StaysCounted}
use p2p_live_streming_system.Program.Machine.{done, more, received, Rounds-Counted}

abbrev pub empty_cluster : Cluster
empty_cluster = record { info = zero_chank; pos = 0; seq = 0; option = 0 }

-- A Timecode and a SimpleBlock.
abbrev pub elements : List ℕ
elements = 0xe7 ∷ 0x81 ∷ 9 ∷ 0xa3 ∷ 0x83 ∷ 1 ∷ 2 ∷ 3 ∷ []

abbrev pub program : Program
program = record {
  node = one_child;
  store = record empty_store {
    file = 11 ∷ 12 ∷ (footer ++ (elements ++ (footer ++ replicate 1000 7)));
    position = 14;
    total_file_bytes = 2000;
    clusters = some (record empty_cluster { seq = 1 }, empty_cluster);
    webm_header = 11 ∷ 12 ∷ [];
    latest_block_seq = 3;
  };
  fpos_r = 0;
  current_read_bytes = 0;
  is_gateway_mac_get = false;
  header_memory = none;
}

-- Before the first block of a cluster.
abbrev pub first : Block
first = record { info = zero_info; prev = record zero_info { status = status_init; pos = 12 } }

abbrev pub first_sent : Block
first_sent = record {
  info = record zero_info { pos = 12; seq = 1; bytes = 8; status = 2 };
  prev = record zero_info { status = status_init; pos = 12 };
}

pub first-IsReady : IsReady first
first-IsReady = record {
  info = record {
    pos = omega arith;
    seq = omega arith;
    bytes = omega arith;
    total_piece_bytes = omega arith;
    cluster_seq = omega arith;
    total_pieces = omega arith;
    piece_seq = omega arith;
    status = omega arith;
    layer = omega arith;
  };
  prev = record {
    pos = omega arith;
    seq = omega arith;
    bytes = omega arith;
    total_piece_bytes = omega arith;
    cluster_seq = omega arith;
    total_pieces = omega arith;
    piece_seq = omega arith;
    status = omega arith;
    layer = omega arith;
  };
  empty = refl;
  last = λ e. absurd (omega arith);
}

next-AllFits_example : AllFits (get_next_block_by_bytes first 1000 (at elements))
next-AllFits_example = next-AllFits first (at elements) first-IsReady

pub next_found :
    get_next_block_by_bytes first max_block_bytes (block_buffer program.store (at []) first)
    ≡ some (2, first_sent)
unfolding get_next_block_by_bytes next_block_init get_chank_by_bytes chank_loop
    assign_block_info_by_sb get_chank get_ebml_id get_data_bytes msb_scan carry cal_offset
    cluster_offset search_webm
next_found = refl

offset : cal_offset program.store (at []) first.prev ≡ 14
unfolding cal_offset cluster_offset
offset = refl

held : cal_offset program.store (at []) first.prev + 1000 ≤ length program.store.file
held = rw offset (omega arith)

room : cal_offset program.store (at []) first.prev + 1000 ≤ program.store.total_file_bytes
room = rw offset (omega arith)

pub dst-IsEndpoint : IsEndpoint (one_child.dst 0)
dst-IsEndpoint = record { mac = omega arith; ip = omega arith; port = omega arith }

send_cache_block-Delivered_example :
    (q : Program) × (frame : List ℕ) × (send_cache_block (at []) program first 0
      ≡ ok (2, first_sent, q))
    × (q.node.sent ≡ program.node.sent ++ (frame ∷ []))
    × Delivered first_sent.info
        (take 8 (drop (cal_offset program.store (at []) first.prev) program.store.file))
        one_child.source
        (one_child.dst 0)
        frame
send_cache_block-Delivered_example =
    send_cache_block-Delivered (at []) program first first_sent 2 0 next_found first-IsReady room
      held dst-IsEndpoint dst-IsEndpoint

-- A KEEPALIVE from the child.
abbrev keepalive : List ℕ
keepalive =
    replicate 12 0 ++ (8 ∷ 0 ∷ (replicate 22 0 ++ (0x13 ∷ 0x88 ∷ 0 ∷ 11 ∷ 0 ∷ 0 ∷ 12 ∷ 0 ∷ 9 ∷ [])))

answered :
    peer_round (at []) program still_world (at keepalive)
    ≡ ok (goes_on (with_node program (send_keepalive_res one_child 0)))
unfolding peer_round peer_frame receive peer_dispatch select node_keepalive find_slot htons
    send_my_id send_packet
answered = refl

keepalive-Expects :
    Expects one_child
      (receive one_child.source.ip one_child.source.port (at keepalive))
      (at keepalive)
unfolding receive htons
keepalive-Expects = record {
  initial_status = λ e. absurd (omega arith);
  depart = λ e. absurd (omega arith);
  detach = λ e. absurd (omega arith);
}

Rounds-Counted_example : Counted (send_keepalive_res one_child 0)
Rounds-Counted_example =
    Rounds-Counted (at []) program (with_node program (send_keepalive_res one_child 0))
      (more program _ done (received still_world (at keepalive) _ keepalive-Expects answered))
      one_child-Counted

-- A DEPART of the child, for the origin.
abbrev depart : List ℕ
depart =
    replicate 12 0
    ++ (8
        ∷ 0
        ∷ (replicate 22 0
            ++ (0x30 ∷ 0x39 ∷ 0 ∷ 39 ∷ 0 ∷ 0 ∷ 5 ∷ (replicate 18 0 ++ (0 ∷ 9 ∷ replicate 10 0)))))

depart-Expects : Expects one_child (receive one_child.source.ip os_port (at depart)) (at depart)
unfolding receive htons copy_bytes_to_node_status
depart-Expects = record {
  initial_status = λ e. absurd (omega arith);
  depart = λ e. record { first = λ k. refl; second = λ k. absurd (omega arith) };
  detach = λ e. absurd (omega arith);
}

origin_frame-StaysCounted_example :
    Ensures StaysCounted (origin_frame program still_world (at depart))
origin_frame-StaysCounted_example =
    origin_frame-StaysCounted program still_world (at depart) one_child-Counted depart-Expects

-- The child is taken off the count.
departed :
    origin_frame program still_world (at depart)
    ≡ ok
        (goes_on (with_node program (node_depart one_child still_world (handler_data (at depart)))))
unfolding origin_frame receive origin_dispatch select htons
departed = refl
