-- ===== src/Prelude/Tables.antt =====
-- Tables: a test that is run on the first `rows` numbers holds for each of them.
use Prim.Native.Nat.{ℕ, zero, suc, ◌<◌}
use mathlib.Core.Path.{◌≡◌}
use mathlib.Core.Bool.{Bool, true, ◌&&◌}
use native.Mathlib.Omega.{arith}

unfoldable pub check_table : (ℕ → Bool) → ℕ → Bool
check_table test zero = true
check_table test (suc rows) = test 0 && check_table (λ row. test (suc row)) rows

pub check_table-row :
    (test : ℕ → Bool) (rows row : ℕ) → row < rows → check_table test rows ≡ true → test row ≡ true
unfolding check_table
check_table-row test zero row small e = absurd (omega arith)
check_table-row test (suc rows) zero small e = ground arith
check_table-row test (suc rows) (suc row) small e =
    check_table-row (λ k. test (suc k)) rows row (omega arith) (ground arith)
