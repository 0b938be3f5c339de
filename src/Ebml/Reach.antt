-- ===== src/Ebml/Reach.antt =====
-- How far GetChank reads, and how long the element is that it reports.
use p2p_live_streming_system.Prelude.{
  ℕ, zero, suc, ◌+◌, ◌-◌, ◌%◌, ◌^◌, ◌≤◌, ◌<◌, ◌≡◌, ◌≢◌, refl, ap, arith, Buf, shift, IsByte,
}
use native.Mathlib.Nat.{add-zero}
use p2p_live_streming_system.Ebml.{
  msb_scan, size_bytes, carry, get_ebml_id, get_data_bytes, get_chank,
}
use p2p_live_streming_system.Ebml.Length.{get_data_bytes_lem, pow_seven}

-- Two memories that agree on the first `n` bytes.
abbrev pub Agree : ℕ → Buf → Buf → Type 0
Agree n p q = (i : ℕ) → i < n → p i ≡ q i

pub size_bytes_bounds : (b : ℕ) → (1 ≤ size_bytes b) × (size_bytes b ≤ 9)
unfolding msb_scan
size_bytes_bounds b = ground arith

carry-Agree : (n : ℕ) (p q : Buf) (v : ℕ) → Agree n p q → carry n p v ≡ carry n q v
unfolding carry
carry-Agree zero p q v h = refl
carry-Agree (suc n) p q v h =
    rw (h 0 (omega arith))
      (carry-Agree n (shift p 1) (shift q 1) _ (λ i l. h (1 + i) (omega arith)))

pub get_ebml_id-Agree : (p q : Buf) → Agree 9 p q → get_ebml_id p ≡ get_ebml_id q
unfolding get_ebml_id
get_ebml_id-Agree p q h = rw (h 0 (omega arith)) (
    ap (λ v. (v % 2 ^ 32, size_bytes (q 0)))
      (carry-Agree (size_bytes (q 0) - 1) (shift p 1) (shift q 1) (q 0)
        (λ i l. h (1 + i) (omega (arith, size_bytes_bounds (q 0))))))

pub get_data_bytes-Agree : (p q : Buf) → Agree 9 p q → get_data_bytes p ≡ get_data_bytes q
unfolding get_data_bytes
get_data_bytes-Agree p q h = rw (h 0 (omega arith)) (
    ap (λ v. (v, size_bytes (q 0)))
      (carry-Agree (size_bytes (q 0) - 1) (shift p 1) (shift q 1) _
        (λ i l. h (1 + i) (omega (arith, size_bytes_bounds (q 0))))))

pub get_ebml_id_size : (p : Buf) → (1 ≤ (get_ebml_id p).1) × ((get_ebml_id p).1 ≤ 9)
unfolding get_ebml_id
get_ebml_id_size p = size_bytes_bounds (p 0)

-- GetChank looks at no byte beyond the first eighteen.
pub get_chank-Agree : (p q : Buf) → Agree 18 p q → get_chank p ≡ get_chank q
unfolding get_chank
get_chank-Agree p q h =
    rw
      (
        get_ebml_id-Agree p q (λ i l. h i (omega arith)),
        get_data_bytes-Agree (shift p (get_ebml_id q).1) (shift q (get_ebml_id q).1)
            (λ i l. h ((get_ebml_id q).1 + i) (omega (arith, get_ebml_id_size q))),
      )
      refl

-- The length field of the element at `p` does not begin with a zero byte.
abbrev pub IsSized : Buf → Type 0
IsSized p = p (get_ebml_id p).1 ≢ 0

-- An element with a proper length field takes two bytes at least, and its length is far from the
-- bound of a u64.
pub chank_bytes_bounds :
    (p : Buf)
    → ((i : ℕ) → IsByte (p i))
    → IsSized p
    → (2 ≤ (get_chank p).chank_bytes) × ((get_chank p).chank_bytes ≤ 2 ^ 57)
unfolding get_chank
chank_bytes_bounds p h z =
    let n : ℕ = (get_ebml_id p).1 in
    let (lo, hi, _, fits) =
      get_data_bytes_lem (shift p n) (λ i. h (n + i)) (λ e. z (rw (← add-zero n) e)) in
    ground (arith, get_ebml_id_size p, lo, hi, fits, pow_seven _ hi)

-- Its data begin behind two bytes at least.
pub data_header_bounds :
    (p : Buf)
    → ((i : ℕ) → IsByte (p i))
    → IsSized p
    → (2 ≤ (get_chank p).data_header_position) × ((get_chank p).data_header_position ≤ 2 ^ 16)
unfolding get_chank
data_header_bounds p h z =
    let n : ℕ = (get_ebml_id p).1 in
    let (lo, hi, _, fits) =
      get_data_bytes_lem (shift p n) (λ i. h (n + i)) (λ e. z (rw (← add-zero n) e)) in
    ground (arith, get_ebml_id_size p, lo, hi, fits, pow_seven _ hi)
