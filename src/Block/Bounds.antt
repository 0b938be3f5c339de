-- ===== src/Block/Bounds.antt =====
-- The size of a next block, and the words of its info (GetNextBlockByBytes in src/common/webm_parser.c).
use p2p_live_streming_system.Prelude.{
  ℕ, ◌+◌, ◌-◌, ◌*◌, ◌^◌, ◌≤◌, ◌≡◌, arith, Option, none, some, Bool-cases, inl, inr, ◌==◌, ==_iff,
  Buf, shift,
}
use p2p_live_streming_system.Words.{u16}
use p2p_live_streming_system.Wire.{BlockInfo, IsBlockInfo}
use p2p_live_streming_system.Block.{
  Block, assign_block_info_by_piece, assign_block_info_by_sb, status_init, status_piece, then_with,
  first_in_cluster, after_previous, next_block_init, next_block_last, next_block_fresh,
  get_next_block_by_bytes, other_flag, last_flag, max_block_bytes,
}
use p2p_live_streming_system.Block.Scanned.{IsScanned, Scanned, scan-IsScanned}

-- A block that SendCacheBlock can send.
abbrev pub Fits : BlockInfo → Type 0
Fits info = IsBlockInfo info × (info.bytes ≤ max_block_bytes)

abbrev pub AllFits : Option (ℕ × Block) → Type 0
AllFits none = Unit {0}
AllFits (some (ret, c)) = Fits c.info

then-AllFits :
    (b : Block) (buf : Buf) (req : ℕ) (m : Option (ℕ × Block)) (f : ℕ → Block → Option (ℕ × Block))
    → IsScanned b buf req m
    → ((ret : ℕ) (c : Block) → Scanned b buf req ret c → AllFits (f ret c))
    → AllFits (then_with m f)
then-AllFits b buf req none f h k = tt
then-AllFits b buf req (some (ret, c)) f h k = k ret c h

fresh-AllFits :
    (b : Block) (buf : Buf)
    → IsBlockInfo b.info
    → b.info.bytes ≡ 0
    → AllFits (next_block_fresh b max_block_bytes buf)
unfolding next_block_fresh assign_block_info_by_piece assign_block_info_by_sb
fresh-AllFits b buf h zero_bytes =
    then-AllFits b buf max_block_bytes _ _ (scan-IsScanned b buf max_block_bytes)
      λ ret c scan. rw (scan.block) (ground (arith, scan.empty, scan.fits))

init-AllFits :
    (b : Block) (buf : Buf)
    → IsBlockInfo b.info
    → b.info.bytes ≡ 0
    → AllFits (next_block_init b max_block_bytes buf)
unfolding next_block_init assign_block_info_by_piece assign_block_info_by_sb
init-AllFits b buf h zero_bytes =
    then-AllFits b buf max_block_bytes _ _ (scan-IsScanned b buf max_block_bytes)
      λ ret c scan. rw (scan.block) (ground (arith, scan.empty, scan.fits, scan.started))

-- The last piece is at most what the block holds.
abbrev pub LastFits : BlockInfo → Type 0
LastFits prev =
    (1000 * prev.piece_seq ≤ prev.total_piece_bytes)
    × (prev.total_piece_bytes ≤ 1000 * prev.piece_seq + 1000)

last-AllFits :
    (b : Block) (buf : Buf)
    → IsBlockInfo b.info
    → IsBlockInfo b.prev
    → LastFits b.prev
    → AllFits (next_block_last b max_block_bytes buf)
unfolding next_block_last assign_block_info_by_piece
last-AllFits b buf h k last =
    then-AllFits p (shift buf p.info.bytes) (u16 (max_block_bytes + 2 ^ 16 - p.info.bytes)) _ _
      (scan-IsScanned p _ _) λ ret c scan. rw (scan.block) (ground (arith, scan.fits))
  where
    p : Block
    p = assign_block_info_by_piece b buf max_block_bytes last_flag

-- A block to be filled: its words and those of the block before fit, it is empty, and if the block
-- before is the last but one piece of an element, the rest of the element fits a block.
pub record IsReady (b : Block) : Type 0 where
  pub info : IsBlockInfo b.info
  pub prev : IsBlockInfo b.prev
  pub empty : b.info.bytes ≡ 0
  pub last :
      b.prev.status ≡ status_piece → b.prev.total_pieces ≡ b.prev.piece_seq + 1 → LastFits b.prev

-- From a block that is ready to be filled GetNextBlockByBytes makes a block whose words fit and
-- which has at most MAX_BLOCK_BYTES bytes, on each of its branches and whatever the file holds.
pub next-AllFits :
    (b : Block) (buf : Buf) → IsReady b → AllFits (get_next_block_by_bytes b max_block_bytes buf)
unfolding get_next_block_by_bytes
next-AllFits b buf h = elim (Bool-cases (b.prev.status == status_init)) [
  | inl a ↦ rw a (init-AllFits (first_in_cluster b) buf (ground (arith, h.info, h.prev)) h.empty)
  | inr a ↦ elim (Bool-cases (b.prev.status == status_piece)) [
    | inr p ↦ rw (a, p) (fresh-AllFits here buf placed h.empty)
    | inl p ↦ elim (Bool-cases (b.prev.total_pieces == b.prev.piece_seq + 1)) [
      | inl l ↦
          rw (a, p, l)
            (last-AllFits here buf placed h.prev (h.last ((==_iff _ _).0 p) ((==_iff _ _).0 l)))
      | inr l ↦ elim (Bool-cases (b.prev.total_pieces == b.prev.piece_seq)) [
        | inl f ↦ rw (a, p, l, f) (fresh-AllFits here buf placed h.empty)
        | inr f ↦ rw (a, p, l, f) other
      ]
    ]
  ]
]
  where
    here : Block
    here = after_previous b

    placed : IsBlockInfo here.info
    placed = ground (arith, h.info, h.prev)

    other : Fits (assign_block_info_by_piece here buf max_block_bytes other_flag).info
    other = unfold assign_block_info_by_piece in ground (arith, h.info, h.prev)
