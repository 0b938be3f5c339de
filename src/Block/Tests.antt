-- ===== src/Block/Tests.antt =====
-- A small cluster, cut into blocks.
use p2p_live_streming_system.Prelude.{
  ℕ, ◌+◌, ◌-◌, ◌*◌, ◌≤◌, ◌≡◌, refl, List, [], ◌∷◌, none, some, if◌then◌else◌, ltb, arith, at, shift,
  at-IsByte,
}
use p2p_live_streming_system.Words.{u16}
use p2p_live_streming_system.Ebml.{
  get_chank, get_data_bytes, msb_scan, carry, get_ebml_id, simpleblock_id,
}
use p2p_live_streming_system.Block.{
  Block, zero_info, init_block, chank_loop, get_chank_by_bytes, get_next_block_by_bytes,
  next_blocks, shift_to_pre_block, assign_block_info_by_piece, then_with, max_block_bytes,
  first_flag, status_block,
}
use p2p_live_streming_system.Block.Scan.{
  Stops, WellSized, get_chank_by_bytes_lem, chank_loop_hangs, id_at,
}
use p2p_live_streming_system.Block.Next.{Numbered, next-Numbered}
use p2p_live_streming_system.Block.Piece.{IsPiece, IsCut, next_blocks-IsPiece, last-IsPiece}

-- A Timecode, a SimpleBlock, and the header of the next cluster.
abbrev cluster_data : List ℕ
cluster_data = 0xe7 ∷ 0x81 ∷ 9 ∷ 0xa3 ∷ 0x83 ∷ 1 ∷ 2 ∷ 3 ∷ 0x1f ∷ 0x43 ∷ 0xb6 ∷ 0x75 ∷ 0x81 ∷ []

scan_lem : chank_loop 101 (at cluster_data) 100 0 0 0 ≡ some (2, 8)
unfolding chank_loop get_chank get_ebml_id get_data_bytes msb_scan carry
scan_lem = refl

sized : WellSized (at cluster_data) 101 100 0
unfolding get_chank get_ebml_id get_data_bytes msb_scan carry
sized = (
  λ e. absurd (omega arith),
  λ _ _. (
    λ e. absurd (omega arith),
    λ _ _. (λ e. absurd (omega arith), λ _ m. absurd (ground (arith, m))),
  ),
)

get_chank_by_bytes_lem_example :
    (status total : ℕ) × (get_chank_by_bytes init_block (at cluster_data) 100
      ≡ some (
        status,
        record init_block {
          info = record init_block.info { bytes = u16 (init_block.info.bytes + total) };
        },
      ))
    × Stops (at cluster_data) 100 status total
get_chank_by_bytes_lem_example =
    get_chank_by_bytes_lem (at cluster_data) init_block 100 (at-IsByte cluster_data (omega arith))
      (omega arith) sized

-- A SimpleBlock whose length field of nine bytes wraps its size to 0.
abbrev wrapped : List ℕ
wrapped = 0xa3 ∷ 0 ∷ 0xff ∷ 0xff ∷ 0xff ∷ 0xff ∷ 0xff ∷ 0xff ∷ 0xff ∷ 0xf6 ∷ []

wrapped_lem : (get_chank (shift (at wrapped) 0)).chank_bytes ≡ 0
unfolding get_chank get_ebml_id get_data_bytes msb_scan carry
wrapped_lem = refl

wrapped_id : id_at (at wrapped) 0 ≡ simpleblock_id
unfolding get_chank get_ebml_id get_data_bytes msb_scan carry
wrapped_id = refl

chank_loop_hangs_example : chank_loop 1001 (at wrapped) 1000 0 0 0 ≡ none
chank_loop_hangs_example =
    chank_loop_hangs (at wrapped) 1000 0 0 (omega arith) (omega arith) wrapped_id wrapped_lem 1001

next-Numbered_example :
    Numbered init_block (get_next_block_by_bytes init_block 1000 (at cluster_data))
next-Numbered_example = next-Numbered init_block 1000 (at cluster_data)

-- A SimpleBlock of 2303 bytes: an id, a length field of two bytes, and 2300 bytes.
abbrev large : List ℕ
large = 0xa3 ∷ 0x48 ∷ 0xfc ∷ []

abbrev at_large : Block
at_large = record {
  info = record zero_info { cluster_seq = 4; seq = 8; pos = 5000 };
  prev = record zero_info { cluster_seq = 4; seq = 7; pos = 4100; bytes = 900; status = 2 };
}

abbrev first_piece : Block
first_piece = record {
  info = record zero_info {
    cluster_seq = 4;
    seq = 8;
    pos = 5000;
    bytes = 1000;
    status = 1;
    total_pieces = 3;
    piece_seq = 1;
    total_piece_bytes = 2303;
  };
  prev = at_large.prev;
}

first_piece_lem : assign_block_info_by_piece at_large (at large) 1000 first_flag ≡ first_piece
unfolding assign_block_info_by_piece get_chank get_ebml_id get_data_bytes msb_scan carry
first_piece_lem = refl

cut : IsCut 5000 2303 3
cut = ground arith

next_blocks-IsPiece_example :
    (c : Block) × (next_blocks 1 (λ i. at large) (shift_to_pre_block first_piece) ≡ some c)
    × IsPiece 5000 2303 3 2 c.prev
next_blocks-IsPiece_example =
    next_blocks-IsPiece 1 (λ i. at large) (shift_to_pre_block first_piece) 5000 2303 3 1 cut
      (unfold shift_to_pre_block in ground arith) (omega arith) (omega arith)

-- The block after the second piece.
abbrev after_second : Block
after_second = record {
  info = zero_info;
  prev = record first_piece.info { seq = 9; pos = 6000; piece_seq = 2 };
}

last-IsPiece_example :
    (p : Block) × (p.info.pos + p.info.bytes ≡ 5000 + 2303)
    × (p.info.pos ≡ 5000 + 1000 * 2)
    × (p.info.bytes ≤ max_block_bytes)
    × (p.info.piece_seq ≡ 3)
    × (get_next_block_by_bytes after_second max_block_bytes (at large)
        ≡ then_with
            (get_chank_by_bytes p (shift (at large) p.info.bytes) (max_block_bytes - p.info.bytes))
            (λ ret c.
              if ltb 0 ret
              then some (ret, record c { info = record c.info { status = status_block } })
              else some (ret, c)))
last-IsPiece_example =
    last-IsPiece after_second (at large) 5000 2303 3 2 cut (ground arith) (omega arith) refl
