-- ===== src/Prelude/Memory.antt =====
-- Memory behind a pointer: `p i` is the byte `p[i]`.
use Prim.Native.Nat.{ℕ, zero, suc, ◌+◌, ◌<◌, ◌≤◌}
use mathlib.Core.Path.{◌≡◌, refl, ap, ◌∙◌}
use mathlib.Core.List.{List, [], ◌∷◌, ◌++◌}
use native.Mathlib.Nat.{zero-add, suc-add}
use native.Mathlib.Omega.{arith}
use p2p_live_streming_system.Prelude.Lists.{length, get_or, take, drop, replicate}

abbrev pub Buf : Type 0
Buf = ℕ → ℕ

-- `&p[n]`
abbrev pub shift : Buf → ℕ → Buf
shift p n i = p (n + i)

-- A pointer to bytes that are written out; what stands behind them is read as 0.
abbrev pub at : List ℕ → Buf
at bytes i = get_or bytes i 0

-- `n` bytes from a pointer, as `memcpy` reads them.
abbrev pub read : ℕ → Buf → List ℕ
read zero p = []
read (suc n) p = p 0 ∷ read n (λ i. p (suc i))

abbrev pub All {ℓ κ} : {A : Type ℓ} → (A → Type κ) → List A → Type κ
All P [] = Unit
All P (x ∷ xs) = P x × All P xs

abbrev pub IsByte : ℕ → Type 0
IsByte b = b < 256

pub length-read : (n : ℕ) (p : Buf) → length (read n p) ≡ n
length-read zero p = refl
length-read (suc n) p = omega (arith, length-read n (λ i. p (suc i)))

pub read-ext : (n : ℕ) (p q : Buf) → ((i : ℕ) → p i ≡ q i) → read n p ≡ read n q
read-ext zero p q h = refl
read-ext (suc n) p q h = rw (h 0) (ap (λ t. q 0 ∷ t) (read-ext n _ _ (λ i. h (suc i))))

-- Behind the bytes of `xs` stand those of `ys`.
pub at-append : (xs ys : List ℕ) (i : ℕ) → at (xs ++ ys) (length xs + i) ≡ at ys i
at-append [] ys i = rw zero-add
at-append (x ∷ xs) ys i = rw suc-add (at-append xs ys i)

pub read-at-append : (xs ys : List ℕ) → read (length xs) (at (xs ++ ys)) ≡ xs
read-at-append [] ys = refl
read-at-append (x ∷ xs) ys = rw (read-at-append xs ys)

-- What follows a list of `n` bytes, read from a pointer that was moved by `n`.
pub read-shift-append :
    (xs ys zs : List ℕ) → read (length ys) (shift (at (xs ++ (ys ++ zs))) (length xs)) ≡ ys
read-shift-append xs ys zs =
    read-ext (length ys) _ _ (at-append xs (ys ++ zs)) ∙ read-at-append ys zs

pub at-IsByte : (xs : List ℕ) → All IsByte xs → (i : ℕ) → IsByte (at xs i)
at-IsByte [] h i = omega arith
at-IsByte (x ∷ xs) h zero = h.0
at-IsByte (x ∷ xs) h (suc i) = at-IsByte xs h.1 i

pub append-IsByte :
    (xs ys : List ℕ)
    → All IsByte xs
    → ((i : ℕ) → IsByte (at ys i))
    → (i : ℕ) → IsByte (at (xs ++ ys) i)
append-IsByte [] ys h k i = k i
append-IsByte (x ∷ xs) ys h k zero = h.0
append-IsByte (x ∷ xs) ys h k (suc i) = append-IsByte xs ys h.1 k i

pub replicate-IsByte : (n b i : ℕ) → IsByte b → IsByte (at (replicate n b) i)
replicate-IsByte zero b i h = omega arith
replicate-IsByte (suc n) b zero h = h
replicate-IsByte (suc n) b (suc i) h = replicate-IsByte n b i h

pub read-ext_below : (n : ℕ) (p q : Buf) → ((i : ℕ) → i < n → p i ≡ q i) → read n p ≡ read n q
read-ext_below zero p q h = refl
read-ext_below (suc n) p q h =
    rw (h 0 (omega arith))
      (ap (λ t. q 0 ∷ t) (read-ext_below n _ _ (λ i small. h (suc i) (omega arith))))

pub read-at : (n : ℕ) (xs : List ℕ) → n ≤ length xs → read n (at xs) ≡ take n xs
read-at zero xs h = refl
read-at (suc n) [] h = absurd (omega arith)
read-at (suc n) (x ∷ xs) h = ap (λ t. x ∷ t) (read-at n xs (omega arith))

-- Bytes of a list from a place on.
pub read-shift :
    (k n : ℕ) (xs : List ℕ) → k + n ≤ length xs → read n (shift (at xs) k) ≡ take n (drop k xs)
read-shift zero n xs h = read-ext n _ _ (λ i. rw zero-add) ∙ read-at n xs (omega arith)
read-shift (suc k) n [] h = absurd (omega arith)
read-shift (suc k) n (x ∷ xs) h = read-ext n _ _ (λ i. rw suc-add) ∙ read-shift k n xs (omega arith)

pub take-read : (b n : ℕ) (p : Buf) (xs : List ℕ) → b ≤ n → take b (read n p ++ xs) ≡ read b p
take-read zero n p xs h = refl
take-read (suc b) zero p xs h = absurd (omega arith)
take-read (suc b) (suc n) p xs h =
    ap (λ t. p 0 ∷ t) (take-read b n (λ i. p (suc i)) xs (omega arith))

pub at-append_left : (xs ys : List ℕ) (i : ℕ) → i < length xs → at (xs ++ ys) i ≡ at xs i
at-append_left [] ys i h = absurd (omega arith)
at-append_left (x ∷ xs) ys zero h = refl
at-append_left (x ∷ xs) ys (suc i) h = at-append_left xs ys i (omega arith)
