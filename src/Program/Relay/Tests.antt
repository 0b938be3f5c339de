-- ===== src/Program/Relay/Tests.antt =====
-- The second block of the sender's cluster, and a child that has one block of it.
use p2p_live_streming_system.Prelude.{
  ℕ, ◌≡◌, refl, List, [], ◌∷◌, ◌++◌, not, ◌==◌, some, false, arith, take, drop, at,
}
use p2p_live_streming_system.Ebml.{get_chank, get_ebml_id, get_data_bytes, msb_scan, carry}
use p2p_live_streming_system.Fault.{ok}
use p2p_live_streming_system.Block.{
  Block, zero_info, max_block_bytes, get_next_block_by_bytes, next_block_fresh, is_old_block_seq,
  get_chank_by_bytes, chank_loop, assign_block_info_by_sb,
}
use p2p_live_streming_system.Block.Bounds.{IsReady}
use p2p_live_streming_system.Store.{Store}
use p2p_live_streming_system.Store.Tests.{recording, open_cluster, open_store, no_cluster, seven}
use p2p_live_streming_system.Store.Recording.{Represents, Takes, add_block}
use p2p_live_streming_system.Store.Seek.{cal_offset, cluster_offset, search_webm}
use p2p_live_streming_system.Node.Tests.{still_world}
use p2p_live_streming_system.Program.{Program, with_store}
use p2p_live_streming_system.Program.Cache.{send_cache_block, block_buffer}
use p2p_live_streming_system.Program.Relay.{send_cache_block-peer_frame}
use p2p_live_streming_system.Program.Tests.{program, first-IsReady, dst-IsEndpoint}
use p2p_live_streming_system.Program.Receive.{goes_on, peer_frame}

-- Behind the Timecode, which was a block of its own.
abbrev second : Block
second = record {
  info = zero_info;
  prev = record zero_info { status = 2; pos = 12; bytes = 3; seq = 1 };
}

abbrev second_sent : Block
second_sent = record second { info = record zero_info { pos = 15; seq = 2; bytes = 5; status = 2 } }

second-IsReady : IsReady second
second-IsReady = record {
  info = first-IsReady.info;
  prev = record {
    pos = omega arith;
    seq = omega arith;
    bytes = omega arith;
    total_piece_bytes = omega arith;
    cluster_seq = omega arith;
    total_pieces = omega arith;
    piece_seq = omega arith;
    status = omega arith;
    layer = omega arith;
  };
  empty = refl;
  last = λ e. absurd (omega arith);
}

second_found :
    get_next_block_by_bytes second max_block_bytes (block_buffer program.store (at []) second)
    ≡ some (2, second_sent)
unfolding get_next_block_by_bytes next_block_fresh get_chank_by_bytes chank_loop
    assign_block_info_by_sb get_chank get_ebml_id get_data_bytes msb_scan carry cal_offset
    cluster_offset search_webm
second_found = refl

second_offset : cal_offset program.store (at []) second.prev ≡ 17
unfolding cal_offset cluster_offset
second_offset = refl

-- The child, whose last cluster has one block.
abbrev child : Program
child = record program {
  store = record open_store {
    current_block = record { info = zero_info; prev = record zero_info { seq = 1; bytes = 2 } };
  };
}

child-Represents : Represents recording child.store open_cluster no_cluster seven
child-Represents = record {
  clusters = refl;
  file = refl;
  size_length = refl;
  position = refl;
  pos = refl;
  id_bytes = refl;
  data_bytes = refl;
  pending = omega arith;
}

second_new : is_old_block_seq 0 1 second_sent.info ≡ false
unfolding is_old_block_seq
second_new = refl

send_cache_block-peer_frame_example :
    (sent : Program) × (frame : List ℕ) × (t : Store) × (send_cache_block (at []) program second 0
      ≡ ok (2, second_sent, sent))
    × (sent.node.sent ≡ program.node.sent ++ (frame ∷ []))
    × (peer_frame child still_world (at (frame ++ [])) ≡ ok (goes_on (with_store child t)))
    × Takes
        (add_block
          (not (child.store.current_block.prev.cluster_seq == 0))
          (take 5 (drop (cal_offset program.store (at []) second.prev) program.store.file))
          recording)
        second_sent.info
        t
send_cache_block-peer_frame_example =
    send_cache_block-peer_frame (at []) program second second_sent 2 0 child still_world recording
      open_cluster no_cluster seven [] second_found second-IsReady (omega arith) (omega arith)
      (rw second_offset (omega arith)) (rw second_offset (omega arith)) dst-IsEndpoint
      dst-IsEndpoint refl refl child-Represents (omega arith) second_new
