-- ===== src/Block/Next.antt =====
-- GetNextBlockByBytes on every branch: how a block is numbered and placed.
use p2p_live_streming_system.Prelude.{
  ℕ, ◌+◌, ◌-◌, ◌^◌, ◌≡◌, inl, inr, refl, ◌∙◌, arith, Option, none, some, Bool-cases, ◌==◌, Buf,
  shift, false, if◌then◌else◌,
}
use p2p_live_streming_system.Words.{u16, u32}
use p2p_live_streming_system.Wire.{BlockInfo}
use p2p_live_streming_system.Ebml.{cluster_header_bytes}
use p2p_live_streming_system.Block.{
  Block, get_chank_by_bytes, assign_block_info_by_piece, assign_block_info_by_sb, status_init,
  status_piece, then_with, first_in_cluster, after_previous, next_block_init, next_block_last,
  next_block_fresh, get_next_block_by_bytes, other_flag, last_flag,
}

-- The members of a block that the branches leave alone once it is numbered.
pub record SamePlace (b c : Block) : Type 0 where
  pub prev : c.prev ≡ b.prev
  pub pos : c.info.pos ≡ b.info.pos
  pub seq : c.info.seq ≡ b.info.seq
  pub cluster_seq : c.info.cluster_seq ≡ b.info.cluster_seq

abbrev Keeps : Block → Option (ℕ × Block) → Type 0
Keeps b none = Unit {0}
Keeps b (some (ret, c)) = SamePlace b c

scan-Keeps : (b : Block) (buf : Buf) (req : ℕ) → Keeps b (get_chank_by_bytes b buf req)
unfolding get_chank_by_bytes
scan-Keeps b buf req = ground arith

then-Keeps :
    (b : Block) (m : Option (ℕ × Block)) (f : ℕ → Block → Option (ℕ × Block))
    → Keeps b m
    → ((ret : ℕ) (c : Block) → SamePlace b c → Keeps b (f ret c))
    → Keeps b (then_with m f)
then-Keeps b none f h k = tt
then-Keeps b (some (ret, c)) f h k = k ret c h

init-Keeps : (b : Block) (req : ℕ) (buf : Buf) → Keeps b (next_block_init b req buf)
unfolding next_block_init assign_block_info_by_piece assign_block_info_by_sb
init-Keeps b req buf = then-Keeps b _ _ (scan-Keeps b buf req) λ ret c h. ground arith

Keeps-trans : (b c : Block) (r : Option (ℕ × Block)) → SamePlace b c → Keeps c r → Keeps b r
Keeps-trans b c none h k = tt
Keeps-trans b c (some (ret, d)) h k = ground arith

last-Keeps : (b : Block) (req : ℕ) (buf : Buf) → Keeps b (next_block_last b req buf)
unfolding next_block_last assign_block_info_by_piece
last-Keeps b req buf =
    let p = assign_block_info_by_piece b buf req last_flag in
    then-Keeps b (get_chank_by_bytes p (shift buf p.info.bytes) (u16 (req + 2 ^ 16 - p.info.bytes)))
      _ (Keeps-trans b p _ (ground arith) (scan-Keeps p _ _)) λ ret c h. ground arith

fresh-Keeps : (b : Block) (req : ℕ) (buf : Buf) → Keeps b (next_block_fresh b req buf)
unfolding next_block_fresh assign_block_info_by_piece assign_block_info_by_sb
fresh-Keeps b req buf = then-Keeps b _ _ (scan-Keeps b buf req) λ ret c h. ground arith

-- Where a block stands, given the info of the block before it: the first block of a cluster has
-- number 1 and stands behind the cluster's header, any other follows the block before it.
abbrev pub IsNumbered : BlockInfo → BlockInfo → Type 0
IsNumbered prev info =
    (info.cluster_seq ≡ prev.cluster_seq)
    × (info.seq ≡ (if prev.status == status_init then 1 else u32 (prev.seq + 1)))
    × (info.pos ≡ (
        if prev.status == status_init then cluster_header_bytes else u32 (prev.pos + prev.bytes)))

abbrev pub Numbered : Block → Option (ℕ × Block) → Type 0
Numbered b none = Unit {0}
Numbered b (some (ret, c)) = (c.prev ≡ b.prev) × IsNumbered b.prev c.info

Numbered-of_Keeps :
    (b b' : Block) (r : Option (ℕ × Block))
    → b'.prev ≡ b.prev
    → IsNumbered b.prev b'.info
    → Keeps b' r
    → Numbered b r
Numbered-of_Keeps b b' none e n k = tt
Numbered-of_Keeps b b' (some (ret, c)) e n k =
    (k.prev ∙ e, (k.cluster_seq ∙ n.0, k.seq ∙ n.1, k.pos ∙ n.2))

other-Keeps :
    (b : Block) (req : ℕ) (buf : Buf)
    → Keeps b (some (0, assign_block_info_by_piece b buf req other_flag))
unfolding assign_block_info_by_piece
other-Keeps b req buf = ground arith

-- On each of its branches GetNextBlockByBytes leaves the info of the block before as it is and
-- makes a block of the same cluster: the first block of a cluster has number 1 and stands behind
-- the cluster's header, any other has the next number and stands behind the bytes of the block
-- before.
pub next-Numbered :
    (b : Block) (req : ℕ) (buf : Buf) → Numbered b (get_next_block_by_bytes b req buf)
unfolding get_next_block_by_bytes
next-Numbered b req buf = elim (Bool-cases (b.prev.status == status_init)) [
  | inl a ↦
      let first = first_in_cluster b in
      rw a (Numbered-of_Keeps b first _ refl (ground arith) (init-Keeps first req buf))
  | inr a ↦ elim (Bool-cases (b.prev.status == status_piece)) [
    | inr p ↦ rw (a, p) (Numbered-of_Keeps b here _ refl (number a) (fresh-Keeps here req buf))
    | inl p ↦ elim (Bool-cases (b.prev.total_pieces == b.prev.piece_seq + 1)) [
      | inl l ↦ rw (a, p, l) (Numbered-of_Keeps b here _ refl (number a) (last-Keeps here req buf))
      | inr l ↦ elim (Bool-cases (b.prev.total_pieces == b.prev.piece_seq)) [
        | inl f ↦
            rw (a, p, l, f) (Numbered-of_Keeps b here _ refl (number a) (fresh-Keeps here req buf))
        | inr f ↦
            rw (a, p, l, f)
              (Numbered-of_Keeps b here
                (some (0, assign_block_info_by_piece here buf req other_flag)) refl (number a)
                (other-Keeps here req buf))
      ]
    ]
  ]
]
  where
    here : Block
    here = after_previous b

    number : (b.prev.status == status_init) ≡ false → IsNumbered b.prev here.info
    number a = ground arith
