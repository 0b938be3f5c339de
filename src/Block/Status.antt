-- ===== src/Block/Status.antt =====
-- The status of a next block (GetNextBlockByBytes in src/common/webm_parser.c).
use p2p_live_streming_system.Prelude.{
  ℕ, ◌+◌, ◌≡◌, ◌≢◌, inl, inr, arith, Option, none, some, Bool-cases, ◌==◌, Buf,
}
use p2p_live_streming_system.Block.{
  Block, get_chank_by_bytes, assign_block_info_by_piece, assign_block_info_by_sb, status_init,
  status_piece, then_with, first_in_cluster, after_previous, next_block_init, next_block_last,
  next_block_fresh, get_next_block_by_bytes, other_flag, last_flag,
}

-- The block is not marked as one before the first of a cluster.
abbrev pub AllAssigned : Option (ℕ × Block) → Type 0
AllAssigned none = Unit {0}
AllAssigned (some (ret, c)) = c.info.status ≢ status_init

abbrev SameStatus : Block → Option (ℕ × Block) → Type 0
SameStatus b none = Unit {0}
SameStatus b (some (ret, c)) = c.info.status ≡ b.info.status

scan-SameStatus : (b : Block) (buf : Buf) (req : ℕ) → SameStatus b (get_chank_by_bytes b buf req)
unfolding get_chank_by_bytes
scan-SameStatus b buf req = ground arith

then-AllAssigned :
    (b : Block) (m : Option (ℕ × Block)) (f : ℕ → Block → Option (ℕ × Block))
    → SameStatus b m
    → ((ret : ℕ) (c : Block) → c.info.status ≡ b.info.status → AllAssigned (f ret c))
    → AllAssigned (then_with m f)
then-AllAssigned b none f h k = tt
then-AllAssigned b (some (ret, c)) f h k = k ret c h

init-AllAssigned : (b : Block) (req : ℕ) (buf : Buf) → AllAssigned (next_block_init b req buf)
unfolding next_block_init assign_block_info_by_piece assign_block_info_by_sb
init-AllAssigned b req buf =
    then-AllAssigned b _ _ (scan-SameStatus b buf req) λ ret c h. ground arith

last-AllAssigned : (b : Block) (req : ℕ) (buf : Buf) → AllAssigned (next_block_last b req buf)
unfolding next_block_last assign_block_info_by_piece
last-AllAssigned b req buf =
    then-AllAssigned (assign_block_info_by_piece b buf req last_flag) _ _ (scan-SameStatus _ _ _)
      λ ret c h. ground arith

fresh-AllAssigned : (b : Block) (req : ℕ) (buf : Buf) → AllAssigned (next_block_fresh b req buf)
unfolding next_block_fresh assign_block_info_by_piece assign_block_info_by_sb
fresh-AllAssigned b req buf =
    then-AllAssigned b _ _ (scan-SameStatus b buf req) λ ret c h. ground arith

pub next-AllAssigned :
    (b : Block) (req : ℕ) (buf : Buf) → AllAssigned (get_next_block_by_bytes b req buf)
unfolding get_next_block_by_bytes
next-AllAssigned b req buf = elim (Bool-cases (b.prev.status == status_init)) [
  | inl a ↦ rw a (init-AllAssigned (first_in_cluster b) req buf)
  | inr a ↦ elim (Bool-cases (b.prev.status == status_piece)) [
    | inr p ↦ rw (a, p) (fresh-AllAssigned here req buf)
    | inl p ↦ elim (Bool-cases (b.prev.total_pieces == b.prev.piece_seq + 1)) [
      | inl l ↦ rw (a, p, l) (last-AllAssigned here req buf)
      | inr l ↦ elim (Bool-cases (b.prev.total_pieces == b.prev.piece_seq)) [
        | inl f ↦ rw (a, p, l, f) (fresh-AllAssigned here req buf)
        | inr f ↦ rw (a, p, l, f) other
      ]
    ]
  ]
]
  where
    here : Block
    here = after_previous b

    other : (assign_block_info_by_piece here buf req other_flag).info.status ≢ status_init
    other = unfold assign_block_info_by_piece in λ e. absurd (omega arith)
