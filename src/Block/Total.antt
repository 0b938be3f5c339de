-- ===== src/Block/Total.antt =====
-- When GetNextBlockByBytes returns (src/common/webm_parser.c).
use p2p_live_streming_system.Prelude.{
  ℕ, suc, ◌+◌, ◌-◌, ◌*◌, ◌^◌, ◌≤◌, ◌<◌, ◌≡◌, refl, ap, arith, Option, some, Bool, true, false,
  Bool-cases, inl, inr, ltb, ◌&&◌, ◌==◌, ==_iff, if◌then◌else◌, Buf, shift, IsByte,
}
use mathlib.Core.Path.{fun_ext, subst}
use native.Mathlib.Nat.{zero-add}
use p2p_live_streming_system.Words.{u16}
use p2p_live_streming_system.Wire.{BlockInfo}
use p2p_live_streming_system.Block.{
  Block, get_chank_by_bytes, assign_block_info_by_piece, status_init, status_piece, then_with,
  first_in_cluster, after_previous, next_block_init, next_block_last, next_block_fresh,
  get_next_block_by_bytes, only_timecode, last_flag, max_block_bytes,
}
use p2p_live_streming_system.Block.Scan.{WellSized, get_chank_by_bytes_lem}
use p2p_live_streming_system.Block.Bounds.{IsReady, LastFits}

-- The block that comes next is the last piece of an element.
abbrev pub is_last_piece : BlockInfo → Bool
is_last_piece prev = prev.status == status_piece && prev.total_pieces == prev.piece_seq + 1

-- How many bytes of the buffer that block takes before the scan for elements, if there is one.
abbrev pub scan_start : BlockInfo → ℕ
scan_start prev =
    if is_last_piece prev then prev.total_piece_bytes - max_block_bytes * prev.piece_seq else 0

-- Each element that a scan from `k` on meets has a proper length field.
unfoldable pub IsScannable : ℕ → Buf → Type 0
IsScannable k buf = WellSized (shift buf k) (suc (max_block_bytes - k)) (max_block_bytes - k) 0

abbrev pub IsSome {ℓ} : {A : Type ℓ} → Option A → Type ℓ
IsSome {A = A} o = (a : A) × (o ≡ some a)

scan-IsSome :
    (b : Block) (req : ℕ) (buf : Buf) (f : ℕ → Block → Option (ℕ × Block))
    → ((i : ℕ) → IsByte (buf i))
    → req < 2 ^ 16
    → WellSized buf (suc req) req 0
    → ((ret : ℕ) (c : Block) → IsSome (f ret c))
    → IsSome (then_with (get_chank_by_bytes b buf req) f)
scan-IsSome b req buf f h small sized total =
    let (status, bytes, e, stops) = get_chank_by_bytes_lem buf b req h small sized in
    rw e (total status _)

if-IsSome {ℓ} : {A : Type ℓ} (b : Bool) (x y : A) → IsSome (if b then some x else some y)
if-IsSome true x y = (x, refl)
if-IsSome false x y = (y, refl)

fresh-IsSome :
    (b : Block) (buf : Buf)
    → ((i : ℕ) → IsByte (buf i))
    → WellSized buf 1001 1000 0
    → IsSome (next_block_fresh b max_block_bytes buf)
unfolding next_block_fresh
fresh-IsSome b buf h sized =
    scan-IsSome b max_block_bytes buf _ h (omega arith) sized λ ret c. if-IsSome (ltb 0 ret) _ _

init-IsSome :
    (b : Block) (buf : Buf)
    → ((i : ℕ) → IsByte (buf i))
    → WellSized buf 1001 1000 0
    → IsSome (next_block_init b max_block_bytes buf)
unfolding next_block_init
init-IsSome b buf h sized =
    scan-IsSome b max_block_bytes buf _ h (omega arith) sized
      λ ret c. cases (ret == 0) (ret == only_timecode) _ _ _
  where
    cases :
        (a b : Bool) (x y z : ℕ × Block)
        → IsSome (if a then some x else if b then some y else some z)
    cases true b x y z = (x, refl)
    cases false true x y z = (y, refl)
    cases false false x y z = (z, refl)

last-IsSome :
    (b : Block) (buf : Buf) (k : ℕ)
    → ((i : ℕ) → IsByte (buf i))
    → k ≤ 1000
    → (assign_block_info_by_piece b buf max_block_bytes last_flag).info.bytes ≡ k
    → WellSized (shift buf k) (suc (1000 - k)) (1000 - k) 0
    → IsSome (next_block_last b max_block_bytes buf)
unfolding next_block_last
last-IsSome b buf k h small e sized =
    rw (e, rest)
      (scan-IsSome _ (1000 - k) (shift buf k) _ (λ i. h (k + i)) (omega arith) sized
        λ ret c. if-IsSome (ltb 0 ret) _ _)
  where
    rest : u16 (1000 + 2 ^ 16 - k) ≡ 1000 - k
    rest = omega (arith, small)

scannable-start : (buf : Buf) → IsScannable 0 buf → WellSized buf 1001 1000 0
unfolding IsScannable
scannable-start buf h = subst (λ p. WellSized p 1001 1000 0) (fun_ext λ i. ap buf (zero-add i)) h

scannable-from :
    (k : ℕ) (buf : Buf)
    → IsScannable k buf
    → WellSized (shift buf k) (suc (max_block_bytes - k)) (max_block_bytes - k) 0
unfolding IsScannable
scannable-from k buf h = h

-- GetNextBlockByBytes with 1000 bytes, on a block that is ready to be filled, returns, if each
-- element that its scan meets has a proper length field.
pub next-IsSome :
    (b : Block) (buf : Buf)
    → ((i : ℕ) → IsByte (buf i))
    → IsReady b
    → IsScannable (scan_start b.prev) buf
    → IsSome (get_next_block_by_bytes b max_block_bytes buf)
unfolding get_next_block_by_bytes
next-IsSome b buf h ready sized = elim (Bool-cases (b.prev.status == status_init)) [
  | inl a ↦ rw a (init-IsSome (first_in_cluster b) buf h (plain (ground arith)))
  | inr a ↦ elim (Bool-cases (b.prev.status == status_piece)) [
    | inr p ↦ rw (a, p) (fresh-IsSome (after_previous b) buf h (plain (ground arith)))
    | inl p ↦ elim (Bool-cases (b.prev.total_pieces == b.prev.piece_seq + 1)) [
      | inl l ↦
          rw (a, p, l) (last (ready.last ((==_iff _ _).0 p) ((==_iff _ _).0 l)) (ground arith))
      | inr l ↦ elim (Bool-cases (b.prev.total_pieces == b.prev.piece_seq)) [
        | inl f ↦ rw (a, p, l, f) (fresh-IsSome (after_previous b) buf h (plain (ground arith)))
        | inr f ↦ rw (a, p, l, f) (_, refl)
      ]
    ]
  ]
]
  where
    plain : is_last_piece b.prev ≡ false → WellSized buf 1001 1000 0
    plain e = scannable-start buf (subst (λ k. IsScannable k buf) (rw e refl) sized)

    last :
        LastFits b.prev
        → is_last_piece b.prev ≡ true
        → IsSome (next_block_last (after_previous b) max_block_bytes buf)
    last fits e =
        last-IsSome (after_previous b) buf (b.prev.total_piece_bytes - 1000 * b.prev.piece_seq) h
          (omega (arith, fits)) bytes
          (scannable-from _ buf (subst (λ k. IsScannable k buf) (rw e refl) sized))
      where
        bytes :
            (assign_block_info_by_piece (after_previous b) buf max_block_bytes last_flag).info.bytes
            ≡ b.prev.total_piece_bytes - 1000 * b.prev.piece_seq
        bytes = unfold assign_block_info_by_piece in ground (arith, fits, ready.prev)
