-- ===== src/Checksum/Verify.antt =====
-- A buffer with its own checksum in it (src/common/p2p.c: CalIPChecksum, CalL4Checksum).
use p2p_live_streming_system.Prelude.{
  ℕ, ◌+◌, ◌-◌, ◌*◌, ◌/◌, ◌%◌, ◌^◌, ◌≤◌, ◌<◌, ◌≡◌, ◌∙◌, List, [], ◌∷◌, ◌++◌, arith, length,
  length-append, All, IsByte,
}
use native.Mathlib.Nat.{add_assoc}
use p2p_live_streming_system.Words.{u32}
use p2p_live_streming_system.Checksum.{
  cal_sum_loop, cal_sum_each_16bit, cal_ip_checksum, cal_l4_checksum, fold_carry, flip_bits,
}

-- The sum of the 16-bit words, with no bound.
unfoldable pub word_sum : List ℕ → ℕ
word_sum [] = 0
word_sum (x ∷ []) = x
word_sum (x ∷ y ∷ rest) = x + y * 256 + word_sum rest

pub word_sum-le : (buf : List ℕ) → All IsByte buf → word_sum buf ≤ 65535 * length buf
unfolding word_sum
word_sum-le [] h = omega arith
word_sum-le (x ∷ []) h = omega arith
word_sum-le (x ∷ y ∷ rest) (hx, (hy, h)) = omega (arith, word_sum-le rest h)

cal_sum_loop_lem :
    (sum : ℕ) (buf : List ℕ)
    → sum + word_sum buf < 2 ^ 32
    → cal_sum_loop sum buf ≡ sum + word_sum buf
unfolding cal_sum_loop word_sum
cal_sum_loop_lem sum [] h = omega arith
cal_sum_loop_lem sum (x ∷ []) h = omega arith
cal_sum_loop_lem sum (x ∷ y ∷ rest) h =
    let e : (sum + (x + y * 256)) % 2 ^ 32 ≡ sum + (x + y * 256) = omega arith in
    rw e (cal_sum_loop_lem (sum + (x + y * 256)) rest (omega arith) ∙ omega arith)

-- A buffer of less than 65536 bytes does not overflow the sum.
pub cal_sum_each_16bit_lem :
    (buf : List ℕ) → All IsByte buf → length buf < 65536 → cal_sum_each_16bit buf ≡ word_sum buf
unfolding cal_sum_each_16bit
cal_sum_each_16bit_lem buf h small =
    cal_sum_loop_lem 0 buf (omega (arith, word_sum-le buf h)) ∙ omega arith

-- A buffer with words `before` and `after` (whole words in front) and the checksum `c` between.
pub word_sum-append :
    (k : ℕ) (xs ys : List ℕ) → length xs ≡ 2 * k → word_sum (xs ++ ys) ≡ word_sum xs + word_sum ys
unfolding word_sum
word_sum-append k [] ys e = omega arith
word_sum-append k (x ∷ []) ys e = absurd (omega arith)
word_sum-append k (x ∷ y ∷ xs) ys e = omega (arith, word_sum-append (k - 1) xs ys (omega arith))

-- The arithmetic of two folds: what is left is the sum modulo 65535, and never 0 for a sum that is
-- not 0.
pub folds-verify :
    (s : ℕ)
    → s < 2 ^ 32 - 65536
    → let c = 65535 - fold_carry (fold_carry s) % 65536 in fold_carry (fold_carry (s + c)) ≡ 65535
folds-verify s h = omega arith

-- A header with its checksum in place, and with the field left 0 for the computation.
abbrev pub with_checksum : ℕ → List ℕ → List ℕ → List ℕ
with_checksum c before after = before ++ ((c % 256) ∷ (c / 256 % 256) ∷ after)

word_sum-with_checksum :
    (k c : ℕ) (before after : List ℕ)
    → length before ≡ 2 * k
    → c < 65536
    → word_sum (with_checksum c before after) ≡ word_sum (with_checksum 0 before after) + c
word_sum-with_checksum k c before after e small = omega (
  arith,
  word_sum-append k before ((c % 256) ∷ (c / 256 % 256) ∷ after) e,
  word_sum-append k before (0 ∷ 0 ∷ after) e,
  words,
)
  where
    words : word_sum ((c % 256) ∷ (c / 256 % 256) ∷ after) ≡ word_sum (0 ∷ 0 ∷ after) + c
    words = unfold word_sum in omega arith

pub append-IsByte : (xs ys : List ℕ) → All IsByte xs → All IsByte ys → All IsByte (xs ++ ys)
append-IsByte [] ys h k = k
append-IsByte (x ∷ xs) ys (p, h) k = (p, append-IsByte xs ys h k)

abbrev framed : List ℕ → List ℕ → ℕ
framed before after = length before + (2 + length after)

length-with_checksum :
    (c : ℕ) (before after : List ℕ) → length (with_checksum c before after) ≡ framed before after
length-with_checksum c before after =
    omega (arith, length-append before ((c % 256) ∷ (c / 256 % 256) ∷ after))

sum_with_checksum :
    (c : ℕ) (before after : List ℕ)
    → c < 65536
    → All IsByte before
    → All IsByte after
    → framed before after < 65536
    → cal_sum_each_16bit (with_checksum c before after) ≡ word_sum (with_checksum c before after)
sum_with_checksum c before after hc hb ha small =
    cal_sum_each_16bit_lem (with_checksum c before after)
      (append-IsByte before _ hb (omega arith, (omega arith, ha)))
      (omega (arith, length-with_checksum c before after))

sum_bound :
    (before after : List ℕ)
    → All IsByte before
    → All IsByte after
    → word_sum (with_checksum 0 before after) ≤ 65535 * framed before after
sum_bound before after hb ha = omega (
  arith,
  word_sum-le (with_checksum 0 before after)
      (append-IsByte before _ hb (omega arith, (omega arith, ha))),
  length-with_checksum 0 before after,
)

-- The IP checksum, computed by CalIPChecksum over less than 65000 bytes with the field 0 and then
-- stored at an even offset, makes CalIPChecksum of the finished bytes 0, which is what a receiver
-- tests.
pub cal_ip_checksum-verifies :
    (k : ℕ) (before after : List ℕ)
    → length before ≡ 2 * k
    → All IsByte before
    → All IsByte after
    → length before + length after < 65000
    → cal_ip_checksum (with_checksum (cal_ip_checksum (with_checksum 0 before after)) before after)
      ≡ 0
unfolding cal_ip_checksum
cal_ip_checksum-verifies k before after even hb ha small =
    rw
      (
        sum_with_checksum 0 before after (omega arith) hb ha (omega arith),
        sum_with_checksum c before after (omega arith) hb ha (omega arith),
        word_sum-with_checksum k c before after even (omega arith),
      )
      (omega (arith, folds-verify s (omega (arith, sum_bound before after hb ha))))
  where
    s : ℕ
    s = word_sum (with_checksum 0 before after)

    c : ℕ
    c = flip_bits (fold_carry (fold_carry s))

-- The same for CalL4Checksum over a UDP header and its data with a pseudo header of at most 100
-- bytes.
pub cal_l4_checksum-verifies :
    (k : ℕ) (before after pseudo : List ℕ)
    → length before ≡ 2 * k
    → All IsByte before
    → All IsByte after
    → All IsByte pseudo
    → length pseudo ≤ 100
    → length before + length after < 65000
    → cal_l4_checksum
        (with_checksum (cal_l4_checksum (with_checksum 0 before after) pseudo) before after)
        pseudo
      ≡ 0
unfolding cal_l4_checksum
cal_l4_checksum-verifies k before after pseudo even hb ha hp short small =
    rw
      (
        sum_with_checksum 0 before after (omega arith) hb ha (omega arith),
        cal_sum_each_16bit_lem pseudo hp (omega arith),
        no_wrap s (omega (arith, bounds)),
        sum_with_checksum c before after (omega arith) hb ha (omega arith),
        word_sum-with_checksum k c before after even (omega arith),
        ← add_assoc (word_sum pseudo) (word_sum (with_checksum 0 before after)) c,
        no_wrap (s + c) (omega (arith, bounds)),
      )
      (omega (arith, folds-verify s (omega (arith, bounds))))
  where
    s : ℕ
    s = word_sum pseudo + word_sum (with_checksum 0 before after)

    c : ℕ
    c = flip_bits (fold_carry (fold_carry s))

    bounds : s ≤ 65535 * (framed before after + 100)
    bounds = omega (arith, sum_bound before after hb ha, word_sum-le pseudo hp)

    no_wrap : (n : ℕ) → n < 2 ^ 32 → u32 n ≡ n
    no_wrap n h = omega arith
