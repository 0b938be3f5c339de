-- ===== src/Peers/Prior.antt =====
-- The choice of the next parent.
use p2p_live_streming_system.Prelude.{
  ℕ, ◌+◌, ◌%◌, ◌<◌, ◌≡◌, ◌⊎◌, refl, List, [], ◌∷◌, Option, none, some, Bool, true, false, ◌==◌,
  ◌++◌, ◌||◌, ◌&&◌, arith, All,
}
use p2p_live_streming_system.Wire.{NodeStatus}
use p2p_live_streming_system.Peers.{
  diff_layers, get_cloest_layer, is_except_list_contains, prior_loop, get_prior_list,
  except_list_push,
}

-- The layer of the last entry, and the node's own for an empty list.
abbrev pub last_layer : ℕ → List NodeStatus → ℕ
last_layer layer [] = layer
last_layer layer (s ∷ l) = last_layer s.layer l

diff_layers_last :
    (layer : ℕ) (l : List NodeStatus) (diff cur : ℕ)
    → layer < 256
    → cur < 256
    → All (λ s. s.layer < 256) l
    → (layer + diff) % 256 ≡ cur
    → (layer + diff_layers layer l diff) % 256 ≡ last_layer cur l
unfolding diff_layers
diff_layers_last layer [] diff cur h k a e = e
diff_layers_last layer (s ∷ l) diff cur h k a e =
    diff_layers_last layer l _ s.layer h a.0 a.1 (omega arith)

-- If all layers are u8 values, GetCloestLayer does not compare the entries: it returns the layer
-- of the last one, and the node's own layer if there is none.
pub get_cloest_layer_lem :
    (layer : ℕ) (l : List NodeStatus)
    → layer < 256
    → All (λ s. s.layer < 256) l
    → get_cloest_layer layer l ≡ last_layer layer l
unfolding get_cloest_layer
get_cloest_layer_lem layer l h a = diff_layers_last layer l 0 layer h h a (omega arith)

-- An entry that may be chosen.
abbrev pub IsCandidate : ℕ → List ℕ → NodeStatus → Type 0
IsCandidate layer except s = (is_except_list_contains except s.id ≡ false) × (s.layer ≡ layer)

-- `chosen` is the first candidate of the list, `none` if there is no candidate.
abbrev pub FirstCandidate : ℕ → List ℕ → List NodeStatus → Option NodeStatus → Type 0
FirstCandidate layer except [] chosen = chosen ≡ none
FirstCandidate layer except (s ∷ l) chosen =
    (IsCandidate layer except s × (chosen ≡ some s))
    ⊎ ((¬ IsCandidate layer except s) × FirstCandidate layer except l chosen)

prior_loop-FirstCandidate :
    (layer : ℕ) (except : List ℕ) (l : List NodeStatus)
    → FirstCandidate layer except l (prior_loop layer except l)
unfolding prior_loop
prior_loop-FirstCandidate layer except [] = refl
prior_loop-FirstCandidate layer except (s ∷ l) =
    ground (arith, prior_loop-FirstCandidate layer except l)

-- If all layers are u8 values, GetPriorList chooses the first entry that stands in the layer of
-- the last entry and whose id is not excepted, and finds nothing exactly when there is no such
-- entry.
pub get_prior_list-FirstCandidate :
    (layer : ℕ) (except : List ℕ) (l : List NodeStatus)
    → layer < 256
    → All (λ s. s.layer < 256) l
    → FirstCandidate (last_layer layer l) except l (get_prior_list layer except l)
unfolding get_prior_list
get_prior_list-FirstCandidate layer except l h a =
    rw (get_cloest_layer_lem layer l h a) (prior_loop-FirstCandidate (last_layer layer l) except l)

append-contains :
    (l : List ℕ) (id other : ℕ)
    → is_except_list_contains (l ++ (id ∷ [])) other
      ≡ (is_except_list_contains l other || id == other)
unfolding is_except_list_contains
append-contains [] id other = ground arith
append-contains (x ∷ l) id other = ground (arith, append-contains l id other)

abbrev pub is_nil : List ℕ → Bool
is_nil [] = true
is_nil (x ∷ l) = false

-- ExceptListPush adds exactly the given id, and the node's own id if the list was empty.
pub is_except_list_contains-push :
    (my_id : ℕ) (except : List ℕ) (id other : ℕ)
    → is_except_list_contains (except_list_push my_id except id) other
      ≡ (is_except_list_contains except other || id == other || is_nil except && my_id == other)
unfolding is_except_list_contains except_list_push
is_except_list_contains-push my_id [] id other = ground arith
is_except_list_contains-push my_id (x ∷ l) id other = ground (arith, append-contains l id other)
