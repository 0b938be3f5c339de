-- ===== src/Block/Piece.antt =====
-- The pieces of an element that is larger than a block (src/common/webm_parser.c).
use p2p_live_streming_system.Prelude.{
  ℕ, zero, suc, ◌+◌, ◌-◌, ◌*◌, ◌^◌, ◌≤◌, ◌<◌, ◌≡◌, refl, arith, some, ltb, ◌==◌, Buf, shift, true,
  false, if◌then◌else◌,
}
use native.Mathlib.Nat.{add-zero}
use p2p_live_streming_system.Words.{u16}
use p2p_live_streming_system.Wire.{BlockInfo}
use p2p_live_streming_system.Ebml.{get_chank}
use p2p_live_streming_system.Block.{
  Block, get_chank_by_bytes, assign_block_info_by_piece, max_block_bytes, status_init, status_piece,
  status_block, next_blocks, then_with, next_block_last, get_next_block_by_bytes,
  shift_to_pre_block, first_flag, other_flag, last_flag, after_previous,
}

-- `info` is piece `k` of `pieces` of an element of `size` bytes that starts at `start` in its
-- cluster; every piece but the last has 1000 bytes.
pub record IsPiece (start size pieces k : ℕ) (info : BlockInfo) : Type 0 where
  pub status : info.status ≡ status_piece
  pub total_pieces : info.total_pieces ≡ pieces
  pub piece_seq : info.piece_seq ≡ k
  pub total_piece_bytes : info.total_piece_bytes ≡ size
  pub bytes : info.bytes ≡ max_block_bytes
  pub pos : info.pos + 1000 ≡ start + 1000 * k

-- The element is cut into the least number of blocks that hold it.
pub record IsCut (start size pieces : ℕ) : Type 0 where
  pub several : 1 < pieces
  pub holds : size ≤ 1000 * pieces
  pub needs : 1000 * pieces < size + 1000
  pub fits : size < 2 ^ 16
  pub in_cluster : start + size < 2 ^ 32

-- A block that starts at an element of more than 1000 and less than 2^16 bytes, with no bytes
-- taken before, is the first piece of the element, and the number of pieces is the least that
-- holds it.
pub first-IsPiece :
    (b : Block) (buf : Buf) (start size : ℕ)
    → (get_chank buf).chank_bytes ≡ size
    → 1000 < size
    → size < 2 ^ 16
    → start + size < 2 ^ 32
    → b.info.pos ≡ start
    → b.info.bytes ≡ 0
    → b.info.total_piece_bytes ≡ 0
    → let info = (assign_block_info_by_piece b buf max_block_bytes first_flag).info in
      IsPiece start size info.total_pieces 1 info × IsCut start size info.total_pieces
unfolding assign_block_info_by_piece
first-IsPiece b buf start size e big small fit p z t = ground arith

-- The block after piece `k`, if that is not the last but one, is piece `k + 1`, whatever the file
-- holds there.
next-IsPiece :
    (b : Block) (buf : Buf) (start size pieces k : ℕ)
    → IsCut start size pieces
    → IsPiece start size pieces k b.prev
    → 1 ≤ k
    → k + 1 < pieces
    → (c : Block) × (get_next_block_by_bytes b max_block_bytes buf ≡ some (0, c))
      × IsPiece start size pieces (k + 1) c.info
unfolding get_next_block_by_bytes assign_block_info_by_piece
next-IsPiece b buf start size pieces k cut p lo hi = (
  assign_block_info_by_piece (after_previous b) buf max_block_bytes other_flag,
  ground arith,
  ground arith,
)

-- The `n` blocks after piece `k` of a cut element, if the last piece is not among them, are pieces
-- k + 1 to k + n: each of 1000 bytes, each with the number and the place that follow from the
-- piece before, whatever the file holds there.
pub next_blocks-IsPiece :
    (n : ℕ) (bufs : ℕ → Buf) (b : Block) (start size pieces k : ℕ)
    → IsCut start size pieces
    → IsPiece start size pieces k b.prev
    → 1 ≤ k
    → k + n < pieces
    → (c : Block) × (next_blocks n bufs b ≡ some c) × IsPiece start size pieces (k + n) c.prev
unfolding next_blocks
next_blocks-IsPiece zero bufs b start size pieces k cut p lo hi = (b, refl, rw (add-zero k) p)
next_blocks-IsPiece (suc n) bufs b start size pieces k cut p lo hi =
    let (c, e, q) = next-IsPiece b (bufs 0) start size pieces k cut p lo (omega arith) in
    let (d, f, r) =
      next_blocks-IsPiece n (λ i. bufs (i + 1)) (shift_to_pre_block c) start size pieces (k + 1) cut
        (unfold shift_to_pre_block in q) (omega arith) (omega arith) in
    (d, rw (e, next_blocks) f, let m : k + suc n ≡ k + 1 + n = omega arith in rw m r)

-- The block after the last but one piece of a cut element takes exactly the rest of the element,
-- so that the pieces cover the element and nothing else; the space that it leaves in the block is
-- scanned for the elements that follow.
pub last-IsPiece :
    (b : Block) (buf : Buf) (start size pieces k : ℕ)
    → IsCut start size pieces
    → IsPiece start size pieces k b.prev
    → 1 ≤ k
    → k + 1 ≡ pieces
    → (p : Block) × (p.info.pos + p.info.bytes ≡ start + size)
      × (p.info.pos ≡ start + 1000 * k)
      × (p.info.bytes ≤ max_block_bytes)
      × (p.info.piece_seq ≡ pieces)
      × (get_next_block_by_bytes b max_block_bytes buf
          ≡ then_with
              (get_chank_by_bytes p (shift buf p.info.bytes) (max_block_bytes - p.info.bytes))
              (λ ret c.
                if ltb 0 ret
                then some (ret, record c { info = record c.info { status = status_block } })
                else some (ret, c)))
unfolding assign_block_info_by_piece
last-IsPiece b buf start size pieces k cut q lo e = (
  assign_block_info_by_piece (after_previous b) buf max_block_bytes last_flag,
  ground arith,
  ground arith,
  ground arith,
  ground arith,
  unfold get_next_block_by_bytes next_block_last in rw (init, piece, last, room),
)
  where
    init : (b.prev.status == status_init) ≡ false
    init = ground arith

    piece : (b.prev.status == status_piece) ≡ true
    piece = ground arith

    last : (b.prev.total_pieces == b.prev.piece_seq + 1) ≡ true
    last = ground arith

    room :
        u16 (
          max_block_bytes
          + 2 ^ 16
          - u16 (b.prev.total_piece_bytes + 2 ^ 32 - max_block_bytes * b.prev.piece_seq))
        ≡ max_block_bytes
          - u16 (b.prev.total_piece_bytes + 2 ^ 32 - max_block_bytes * b.prev.piece_seq)
    room = ground arith
