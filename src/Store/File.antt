-- ===== src/Store/File.antt =====
-- Writing into the bytes of a file.
use p2p_live_streming_system.Prelude.{ℕ, ◌+◌, ◌≡◌, refl, ap, List, [], ◌∷◌, ◌++◌, arith, length}
use native.Mathlib.Nat.{suc-add}
use p2p_live_streming_system.Store.{overwrite, write_at}

-- A write at the end appends.
pub write_at-end : (file bytes : List ℕ) → write_at file (length file) bytes ≡ file ++ bytes
unfolding write_at overwrite
write_at-end [] [] = refl
write_at-end [] (b ∷ bytes) = refl
write_at-end (x ∷ file) bytes = ap (λ t. x ∷ t) (write_at-end file bytes)

overwrite-front :
    (old new rest : List ℕ) → length old ≡ length new → overwrite (old ++ rest) new ≡ new ++ rest
unfolding overwrite
overwrite-front [] [] [] h = refl
overwrite-front [] [] (z ∷ rest) h = refl
overwrite-front [] (y ∷ new) rest h = absurd (omega arith)
overwrite-front (x ∷ old) [] rest h = absurd (omega arith)
overwrite-front (x ∷ old) (y ∷ new) rest h =
    ap (λ t. y ∷ t) (overwrite-front old new rest (omega arith))

-- A write behind five bytes exchanges as many bytes as it has.
pub write_at-behind_five :
    (xs old new rest : List ℕ) (a b c d e : ℕ)
    → length old ≡ length new
    → write_at (xs ++ (a ∷ b ∷ c ∷ d ∷ e ∷ (old ++ rest))) (length xs + 5) new
      ≡ xs ++ (a ∷ b ∷ c ∷ d ∷ e ∷ (new ++ rest))
unfolding write_at
write_at-behind_five [] old new rest a b c d e h =
    ap (λ t. a ∷ b ∷ c ∷ d ∷ e ∷ t) (overwrite-front old new rest h)
write_at-behind_five (x ∷ xs) old new rest a b c d e h =
    rw suc-add (ap (λ t. x ∷ t) (write_at-behind_five xs old new rest a b c d e h))
