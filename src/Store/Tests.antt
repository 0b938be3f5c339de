-- ===== src/Store/Tests.antt =====
-- A short stream: a header of two bytes, a block of three, and the end.
use p2p_live_streming_system.Prelude.{
  ℕ, ◌+◌, ◌-◌, ◌^◌, ◌≡◌, refl, List, [], ◌∷◌, ◌++◌, some, true, false, if◌then◌else◌, arith, shift,
  read, at, replicate,
}
use p2p_live_streming_system.Words.{u16}
use p2p_live_streming_system.Wire.{copy_bytes_to_block_info, blockinfo_bytes}
use p2p_live_streming_system.Ebml.{
  get_chank, get_ebml_id, get_data_bytes, msb_scan, carry, footer, cluster_id, update_data_buf,
}
use p2p_live_streming_system.Ebml.Length.{big_endian}
use p2p_live_streming_system.Block.{zero_info, is_old_block_seq}
use p2p_live_streming_system.Fault.{Ensures, ok}
use p2p_live_streming_system.Store.{Cluster, Store, zero_chank}
use p2p_live_streming_system.Store.Assemble.{running, finished, assemble_block}
use p2p_live_streming_system.Store.Recording.{Recording, Represents, finish, block_data, spelled}
use p2p_live_streming_system.Store.Clock.{HasClock}
use p2p_live_streming_system.Store.NewBlock.{is_new_cluster}
use p2p_live_streming_system.Store.Stream.{
  Steps, store_of, assemble_block-header, assemble_block-Steps,
}
use p2p_live_streming_system.Store.Finish.{assemble_block-finish}
use p2p_live_streming_system.Store.Repeat.{assemble_block-repeated}

abbrev pub no_cluster : Cluster
no_cluster = record { info = zero_chank; pos = 0; seq = 0; option = 0 }

abbrev pub empty_store : Store
empty_store = record {
  file = [];
  position = 0;
  fpos_w = 0;
  total_file_bytes = 0;
  clusters = some (no_cluster, no_cluster);
  current_block = record { info = zero_info; prev = zero_info };
  current_blockinfo = zero_info;
  current_block_num = 0;
  total_block_num = 0;
  latest_block_seq = 0;
  first_cluster_seq = 0;
  is_first_cluster = true;
  webm_header = [];
  timecode_offset = 0;
  node_timecode_offset = 0;
  is_get_timecode_offset = false;
}

abbrev header_packet : List ℕ
header_packet = replicate 18 0 ++ (11 ∷ 12 ∷ [])

abbrev final_packet : List ℕ
final_packet = replicate 18 0xff ++ (0 ∷ [])

abbrev pub recording : Recording
recording = record { closed = 11 ∷ 12 ∷ []; payload = 31 ∷ 32 ∷ [] }

abbrev pub open_cluster : Cluster
open_cluster = record {
  info = record {
    id = cluster_id;
    id_bytes = 4;
    data_header_position = 12;
    data_bytes = 0;
    chank_bytes = 12;
  };
  pos = 2;
  seq = 4;
  option = 0;
}

-- The last cluster has one block of two bytes, which is not counted yet.
abbrev pub open_store : Store
open_store = record empty_store {
  file = 11 ∷ 12 ∷ (footer ++ (31 ∷ 32 ∷ []));
  position = 16;
  fpos_w = 16;
  clusters = some (open_cluster, no_cluster);
  current_block = record {
    info = zero_info;
    prev = record zero_info { cluster_seq = 4; seq = 1; bytes = 2 };
  };
  current_blockinfo = record zero_info { cluster_seq = 4; seq = 1; bytes = 2 };
  current_block_num = 1;
  latest_block_seq = 1;
}

abbrev pub seven : List ℕ
seven = replicate 7 0xff

open_store-Represents : Represents recording open_store open_cluster no_cluster seven
open_store-Represents = record {
  clusters = refl;
  file = refl;
  size_length = refl;
  position = refl;
  pos = refl;
  id_bytes = refl;
  data_bytes = refl;
  pending = omega arith;
}

assemble_block-header_example :
    (t : Store) × (d : Cluster) × (size : List ℕ) × (assemble_block empty_store
        (at header_packet)
        20
      ≡ ok (running t))
    × Represents
        (record {
          closed =
              empty_store.file
              ++ read
                  (u16 (20 + 2 ^ 16 - blockinfo_bytes))
                  (shift (at header_packet) blockinfo_bytes);
          payload = [];
        })
        t
        d
        no_cluster
        size
assemble_block-header_example =
    assemble_block-header empty_store no_cluster no_cluster (at header_packet) 20 refl refl refl
      refl

-- Block 1 of cluster 5: a time code of 9 in two bytes, and one byte more.
abbrev timed_packet : List ℕ
timed_packet =
    0 ∷ 0 ∷ 0 ∷ 40 ∷ 0 ∷ 0 ∷ 0 ∷ 1 ∷ 0 ∷ 5 ∷ 0 ∷ 0 ∷ 0 ∷ 5 ∷ 0 ∷ 0 ∷ 2 ∷ 0 ∷ 0xe7 ∷ 0x82 ∷ 0 ∷ 9
    ∷ 77 ∷ []

-- The first time code was 2, and what the parent told is 4.
abbrev timed_store : Store
timed_store = record open_store {
  timecode_offset = 2;
  node_timecode_offset = 4;
  is_get_timecode_offset = true;
}

timed_store-Represents : Represents recording timed_store open_cluster no_cluster seven
timed_store-Represents = record {
  clusters = refl;
  file = refl;
  size_length = refl;
  position = refl;
  pos = refl;
  id_bytes = refl;
  data_bytes = refl;
  pending = omega arith;
}

assemble_block-Steps_example :
    (if is_old_block_seq 0 1 (copy_bytes_to_block_info (at timed_packet))
      then assemble_block timed_store (at timed_packet) 23 ≡ ok (running timed_store)
      else ((Steps recording
            (is_new_cluster timed_store (at timed_packet))
            (copy_bytes_to_block_info (at timed_packet))
            (block_data timed_store (at timed_packet))
            (assemble_block timed_store (at timed_packet) 23))
          × Ensures
              (λ a. HasClock timed_store (at timed_packet) (store_of a))
              (assemble_block timed_store (at timed_packet) 23)))
assemble_block-Steps_example =
    assemble_block-Steps recording timed_store open_cluster no_cluster seven (at timed_packet) 23
      timed_store-Represents (omega arith) (refl, refl)

-- The block is a new one and begins a new cluster, and its time code becomes 11.
timed_packet_lem :
    (is_old_block_seq 0 1 (copy_bytes_to_block_info (at timed_packet)) ≡ false)
    × (is_new_cluster timed_store (at timed_packet) ≡ true)
    × (block_data timed_store (at timed_packet) ≡ ok (0xe7 ∷ 0x82 ∷ 0 ∷ 11 ∷ 77 ∷ []))
unfolding is_old_block_seq copy_bytes_to_block_info get_chank get_ebml_id get_data_bytes msb_scan
    carry spelled big_endian
timed_packet_lem = (refl, refl, refl)

assemble_block-finish_example :
    (t : Store) × (assemble_block open_store (at final_packet) 19 ≡ ok (finished t))
    × (t.file ≡ finish recording ++ footer)
    × (get_chank (shift (at t.file) 2) ≡ record {
      id = cluster_id;
      id_bytes = 4;
      data_header_position = 12;
      data_bytes = 2;
      chank_bytes = 14;
    })
assemble_block-finish_example =
    assemble_block-finish recording open_store open_cluster no_cluster seven (at final_packet) 19
      open_store-Represents (omega arith) (refl, refl)

finish_lem :
    finish recording
    ≡ 11 ∷ 12 ∷ 0x1f ∷ 0x43 ∷ 0xb6 ∷ 0x75 ∷ 1 ∷ 0 ∷ 0 ∷ 0 ∷ 0 ∷ 0 ∷ 0 ∷ 2 ∷ 31 ∷ 32 ∷ []
unfolding update_data_buf
finish_lem = refl

-- Block 2 of cluster 4, after block 3 of the same cluster.
abbrev late_packet : List ℕ
late_packet =
    0 ∷ 0 ∷ 0 ∷ 40 ∷ 0 ∷ 0 ∷ 0 ∷ 2 ∷ 0 ∷ 3 ∷ 0 ∷ 0 ∷ 0 ∷ 4 ∷ 0 ∷ 0 ∷ 2 ∷ 0 ∷ 21 ∷ 22 ∷ 23 ∷ []

abbrev later_store : Store
later_store = record open_store { latest_block_seq = 3 }

late_info :
    ((copy_bytes_to_block_info (at late_packet)).cluster_seq ≡ 4)
    × ((copy_bytes_to_block_info (at late_packet)).seq ≡ 2)
unfolding copy_bytes_to_block_info
late_info = (refl, refl)

later_store-Represents : Represents recording later_store open_cluster no_cluster seven
later_store-Represents = record {
  clusters = refl;
  file = refl;
  size_length = refl;
  position = refl;
  pos = refl;
  id_bytes = refl;
  data_bytes = refl;
  pending = omega arith;
}

assemble_block-repeated_example :
    Steps recording false
      (copy_bytes_to_block_info (at late_packet))
      (ok (read (copy_bytes_to_block_info (at late_packet)).bytes (shift (at late_packet) 18)))
      (assemble_block later_store (at late_packet) 21)
assemble_block-repeated_example =
    assemble_block-repeated recording later_store open_cluster no_cluster seven (at late_packet) 21
      later_store-Represents (omega arith) (refl, refl) (omega (arith, late_info)) (late_info.0)
      (omega (arith, late_info)) (omega (arith, late_info))
