-- ===== src/Peers.antt =====
-- The lists of a node (src/common/p2p.c: NODES_LIST, EXCEPT_LIST and the functions on them). A C list is
-- the list of its entries, NULL the empty one. The time stamp of an entry is never read.
pub mod Update
pub mod Prior
mod Tests
use p2p_live_streming_system.Prelude.{
  ℕ, zero, suc, ◌+◌, ◌-◌, ◌%◌, ◌^◌, List, [], ◌∷◌, ◌++◌, Option, none, some, Bool, true, false,
  ◌==◌, if◌then◌else◌, length, get_elem?, not, ◌&&◌,
}
use p2p_live_streming_system.Words.{u8}
use p2p_live_streming_system.Wire.{NodeStatus}
use p2p_live_streming_system.Fault.{Result, ok, err, endless_loop}

-- IsListContains
unfoldable pub is_list_contains : List NodeStatus → ℕ → Bool
is_list_contains [] id = false
is_list_contains (s ∷ l) id = if s.id == id then true else is_list_contains l id

-- ListSize
abbrev pub list_size : List NodeStatus → ℕ
list_size = length

-- ListPush
unfoldable pub list_push : List NodeStatus → NodeStatus → List NodeStatus
list_push [] s = s ∷ []
list_push (x ∷ l) s = x ∷ list_push l s

-- ListUpdate: every entry with the id is overwritten.
unfoldable pub list_update : List NodeStatus → NodeStatus → List NodeStatus
list_update [] s = []
list_update (x ∷ l) s = (if s.id == x.id then s else x) ∷ list_update l s

-- GetListIndex: `none` is NULL.
abbrev pub get_list_index : List NodeStatus → ℕ → Option NodeStatus
get_list_index = get_elem?

-- The loop of GetCloestLayer: `diff_layers` is an int, kept here modulo 256, as the u8 that it is
-- added to keeps it.
unfoldable pub diff_layers : ℕ → List NodeStatus → ℕ → ℕ
diff_layers layer [] diff = diff
diff_layers layer (s ∷ l) diff = diff_layers layer l ((s.layer + 256 - layer) % 256)

-- GetCloestLayer: `layer` is NODES_STATUS[MY_ID].layer.
unfoldable pub get_cloest_layer : ℕ → List NodeStatus → ℕ
get_cloest_layer layer l = u8 (layer + diff_layers layer l 0)

-- IsExceptListContains
unfoldable pub is_except_list_contains : List ℕ → ℕ → Bool
is_except_list_contains [] id = false
is_except_list_contains (x ∷ l) id = if x == id then true else is_except_list_contains l id

-- ExceptListPush: a new list starts with the node's own id.
unfoldable pub except_list_push : ℕ → List ℕ → ℕ → List ℕ
except_list_push my_id [] id = my_id ∷ id ∷ []
except_list_push my_id (x ∷ l) id = x ∷ (l ++ (id ∷ []))

-- The loop of GetPriorList.
unfoldable pub prior_loop : ℕ → List ℕ → List NodeStatus → Option NodeStatus
prior_loop cloest_layer except [] = none
prior_loop cloest_layer except (s ∷ l) =
    if not (is_except_list_contains except s.id) && s.layer == cloest_layer
    then some s
    else prior_loop cloest_layer except l

-- GetPriorList: `none` is NULL.
unfoldable pub get_prior_list : ℕ → List ℕ → List NodeStatus → Option NodeStatus
get_prior_list layer except l = prior_loop (get_cloest_layer layer l) except l

-- The while loop of GetList, for a number of rounds: `none` where they do not suffice. The body does
-- not move `current` on.
unfoldable pub get_list_loop : ℕ → List NodeStatus → ℕ → Option (Option NodeStatus)
get_list_loop zero current id = none
get_list_loop (suc fuel) [] id = some none
get_list_loop (suc fuel) (s ∷ l) id =
    let rest = get_list_loop fuel (s ∷ l) id in if s.id == id then some (some s) else rest

-- GetList: a loop that has not ended after as many rounds as the list has entries, and one more for
-- NULL, does not end (`get_list_loop-stuck`).
unfoldable pub get_list : List NodeStatus → ℕ → Result (Option NodeStatus)
get_list l id = elim (get_list_loop (suc (length l)) l id) [
  | none ↦ err endless_loop
  | some found ↦ ok found
]

-- The body of the loops of NodeInitialStatus and NodeAdvertise: a status whose id is in the list is
-- passed over.
unfoldable pub add_status : List NodeStatus → NodeStatus → List NodeStatus
add_status l s = if is_list_contains l s.id then l else list_push l s

-- The body of the loop of NodeResList.
unfoldable pub merge_status : List NodeStatus → NodeStatus → List NodeStatus
merge_status l s = if is_list_contains l s.id then list_update l s else list_push l s
