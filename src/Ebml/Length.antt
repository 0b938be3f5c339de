-- ===== src/Ebml/Length.antt =====
-- The variable-length numbers that GetEBMLID and GetDataBytes read.
use p2p_live_streming_system.Prelude.{
  ℕ, zero, ◌+◌, ◌-◌, ◌*◌, ◌/◌, ◌%◌, ◌^◌, ◌≤◌, ◌<◌, ◌≡◌, refl, ◌∙◌, arith, leb, ltb, ◌==◌, ◌&&◌,
  bit_and, Buf, shift, IsByte, check_table, check_table-row, ==_iff, true, Bool, ◌≢◌, leb→le, suc,
}
use native.Mathlib.Nat.{pow-suc, mod-eq_of_lt}
use native.Mathlib.Numerals.{add-one}
use p2p_live_streming_system.Words.{u64}
use p2p_live_streming_system.Ebml.{msb_scan, size_bytes, carry, get_data_bytes}

-- The number that `v` and `n` more bytes spell in base 256, highest first.
unfoldable pub big_endian : ℕ → Buf → ℕ → ℕ
big_endian zero p v = v
big_endian (suc n) p v = big_endian n (shift p 1) (v * 256 + p 0)

big_endian_mod :
    (n : ℕ) (p : Buf) (v w : ℕ)
    → v % 2 ^ 64 ≡ w % 2 ^ 64
    → big_endian n p v % 2 ^ 64 ≡ big_endian n p w % 2 ^ 64
unfolding big_endian
big_endian_mod zero p v w h = h
big_endian_mod (suc n) p v w h =
    big_endian_mod n (shift p 1) (v * 256 + p 0) (w * 256 + p 0) (omega arith)

-- The loop on a u64 computes the number modulo 2^64.
pub carry_mod : (n : ℕ) (p : Buf) (v : ℕ) → v < 2 ^ 64 → carry n p v ≡ big_endian n p v % 2 ^ 64
unfolding carry big_endian
carry_mod zero p v h = omega arith
carry_mod (suc n) p v h =
    carry_mod n (shift p 1) (u64 (u64 (v * 256) + p 0)) (omega arith)
    ∙ big_endian_mod n (shift p 1) (u64 (u64 (v * 256) + p 0)) (v * 256 + p 0) (omega arith)

big_endian-lt :
    (n : ℕ) (p : Buf) (v m : ℕ) → ((i : ℕ) → IsByte (p i)) → v < m → big_endian n p v < m * 256 ^ n
unfolding big_endian
big_endian-lt zero p v m h l = omega arith
big_endian-lt (suc n) p v m h l = rw (pow-suc 256 n) (
    omega (
      arith,
      big_endian-lt n (shift p 1) (v * 256 + p 0) (m * 256) (λ i. h (1 + i)) (omega (arith, h 0)),
    ))

-- A first byte with its highest bit at place 8 - n announces n bytes.
abbrev HasSize : ℕ → ℕ → Type 0
HasSize b n =
    (1 ≤ n)
    × (n ≤ 8)
    × (2 ^ (8 - n) ≤ b)
    × (b < 2 * 2 ^ (8 - n))
    × (bit_and b (0xff / 2 ^ n) ≡ b - 2 ^ (8 - n))

abbrev has_size : ℕ → ℕ → Bool
has_size b n =
    leb 1 n
    && (leb n 8
        && (leb (2 ^ (8 - n)) b
            && (ltb b (2 * 2 ^ (8 - n)) && (bit_and b (0xff / 2 ^ n) == b - 2 ^ (8 - n)))))

has_size_sound : (b n : ℕ) → has_size b n ≡ true → HasSize b n
has_size_sound b n h = ground arith

size_table : check_table (λ b. has_size (b + 1) (size_bytes (b + 1))) 255 ≡ true
unfolding check_table msb_scan
size_table = refl

-- So does the scan find it, on every byte that is not 0.
pub size_bytes_lem : (b : ℕ) → b < 256 → b ≢ 0 → HasSize b (size_bytes b)
size_bytes_lem zero h n = absurd (n refl)
size_bytes_lem (suc b) h n = rw (← add-one b) (
    has_size_sound (b + 1) _
      (check_table-row (λ b. has_size (b + 1) (size_bytes (b + 1))) 255 b (omega arith) size_table))

width_table : check_table (λ k. 2 ^ (8 - (k + 1)) * 256 ^ (k + 1 - 1) == 2 ^ (7 * (k + 1))) 8 ≡ true
unfolding check_table
width_table = refl

width : (n : ℕ) → 1 ≤ n → n ≤ 8 → 2 ^ (8 - n) * 256 ^ (n - 1) ≡ 2 ^ (7 * n)
width zero h l = absurd (omega arith)
width (suc k) h l = rw (← add-one k) (
    (==_iff _ _).0 (
      check_table-row (λ k. 2 ^ (8 - (k + 1)) * 256 ^ (k + 1 - 1) == 2 ^ (7 * (k + 1))) 8 k
        (omega arith) width_table))

pow_seven_table : check_table (λ n. leb (2 ^ (7 * n)) (2 ^ 56)) 9 ≡ true
unfolding check_table
pow_seven_table = refl

pub pow_seven : (n : ℕ) → n ≤ 8 → 2 ^ (7 * n) ≤ 2 ^ 56
pow_seven n h =
    leb→le _ _ (check_table-row (λ n. leb (2 ^ (7 * n)) (2 ^ 56)) 9 n (omega arith) pow_seven_table)

-- GetDataBytes on a first byte that is not 0: the number is the big-endian number of the announced
-- bytes with the marker bit taken out, and it has at most seven bits for each of them.
pub get_data_bytes_lem :
    (buf : Buf)
    → ((i : ℕ) → IsByte (buf i))
    → buf 0 ≢ 0
    → let n = (get_data_bytes buf).1 in
      (1 ≤ n)
      × (n ≤ 8)
      × ((get_data_bytes buf).0 ≡ big_endian (n - 1) (shift buf 1) (buf 0 - 2 ^ (8 - n)))
      × ((get_data_bytes buf).0 < 2 ^ (7 * n))
unfolding get_data_bytes
get_data_bytes_lem buf h nz =
    (s.0, s.1, value ∙ mod-eq_of_lt fits, rw (value, mod-eq_of_lt fits) bound)
  where
    n : ℕ
    n = size_bytes (buf 0)

    s : HasSize (buf 0) n
    s = size_bytes_lem (buf 0) (h 0) nz

    spec : ℕ
    spec = big_endian (n - 1) (shift buf 1) (buf 0 - 2 ^ (8 - n))

    bound : spec < 2 ^ (7 * n)
    bound = rw (← width n s.0 s.1) (
        big_endian-lt (n - 1) (shift buf 1) (buf 0 - 2 ^ (8 - n)) (2 ^ (8 - n)) (λ i. h (1 + i))
          (omega (arith, s.2, s.3)))

    fits : spec < 2 ^ 64
    fits = omega (arith, bound, pow_seven n s.1)

    value : (get_data_bytes buf).0 ≡ spec % 2 ^ 64
    value = rw (s.4) (carry_mod (n - 1) (shift buf 1) (buf 0 - 2 ^ (8 - n)) (omega (arith, h 0)))
