-- ===== src/Ebml/Tests.antt =====
-- Elements of a WebM file.
use p2p_live_streming_system.Prelude.{
  ℕ, zero, suc, ◌-◌, ◌*◌, ◌^◌, ◌≤◌, ◌<◌, ◌≡◌, refl, List, [], ◌∷◌, ◌++◌, arith, at, shift,
  at-IsByte,
}
use p2p_live_streming_system.Ebml.{get_chank, get_data_bytes, msb_scan, carry}
use p2p_live_streming_system.Ebml.Length.{get_data_bytes_lem, big_endian}
use p2p_live_streming_system.Ebml.Reach.{get_chank-Agree}

-- A number of two bytes.
abbrev two_bytes : List ℕ
two_bytes = 0x41 ∷ 0x2c ∷ []

two_bytes_lem : get_data_bytes (at two_bytes) ≡ (300, 2)
unfolding get_data_bytes msb_scan carry
two_bytes_lem = refl

get_data_bytes_lem_example :
    let n = (get_data_bytes (at two_bytes)).1 in
    (1 ≤ n)
    × (n ≤ 8)
    × ((get_data_bytes (at two_bytes)).0
        ≡ big_endian (n - 1) (shift (at two_bytes) 1) (0x41 - 2 ^ (8 - n)))
    × ((get_data_bytes (at two_bytes)).0 < 2 ^ (7 * n))
get_data_bytes_lem_example =
    get_data_bytes_lem (at two_bytes) (at-IsByte two_bytes (omega arith)) (omega arith)

-- A SimpleBlock of three bytes.
abbrev simple : List ℕ
simple = 0xa3 ∷ 0x83 ∷ 1 ∷ 2 ∷ 3 ∷ []

get_chank-Agree_example : get_chank (at simple) ≡ get_chank (at (simple ++ (0 ∷ 0 ∷ [])))
get_chank-Agree_example = get_chank-Agree (at simple) (at (simple ++ (0 ∷ 0 ∷ []))) (λ i h. same i)
  where
    same : (i : ℕ) → at simple i ≡ at (simple ++ (0 ∷ 0 ∷ [])) i
    same zero = refl
    same (suc zero) = refl
    same (suc (suc zero)) = refl
    same (suc (suc (suc zero))) = refl
    same (suc (suc (suc (suc zero)))) = refl
    same (suc (suc (suc (suc (suc zero))))) = refl
    same (suc (suc (suc (suc (suc (suc zero)))))) = refl
    same (suc (suc (suc (suc (suc (suc (suc i))))))) = refl
