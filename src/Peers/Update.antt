-- ===== src/Peers/Update.antt =====
-- NODES_LIST as a finite map from ids to statuses.
use p2p_live_streming_system.Prelude.{
  ℕ, ◌≡◌, inl, inr, refl, ◌∙◌, List, [], ◌∷◌, Option, none, some, Bool, true, false, ◌==◌, ◌||◌,
  if◌then◌else◌, arith, Bool-cases,
}
use p2p_live_streming_system.Wire.{NodeStatus}
use p2p_live_streming_system.Peers.{
  is_list_contains, list_push, list_update, add_status, merge_status,
}

-- The status that the list holds for an id.
unfoldable pub lookup : ℕ → List NodeStatus → Option NodeStatus
lookup id [] = none
lookup id (s ∷ l) = if s.id == id then some s else lookup id l

-- No id stands twice.
abbrev pub IsMap : List NodeStatus → Type 0
IsMap [] = Unit {0}
IsMap (s ∷ l) = (is_list_contains l s.id ≡ false) × IsMap l

abbrev is_some : Option NodeStatus → Bool
is_some none = false
is_some (some s) = true

contains_lookup : (l : List NodeStatus) (id : ℕ) → is_list_contains l id ≡ is_some (lookup id l)
unfolding is_list_contains lookup
contains_lookup [] id = refl
contains_lookup (s ∷ l) id = ground (arith, contains_lookup l id)

lookup-push :
    (l : List NodeStatus) (s : NodeStatus) (id : ℕ)
    → is_list_contains l s.id ≡ false
    → lookup id (list_push l s) ≡ (if s.id == id then some s else lookup id l)
unfolding lookup list_push is_list_contains
lookup-push [] s id h = refl
lookup-push (x ∷ l) s id h = ground (arith, lookup-push l s id)

contains-push :
    (l : List NodeStatus) (s : NodeStatus) (id : ℕ)
    → is_list_contains (list_push l s) id ≡ (is_list_contains l id || s.id == id)
unfolding is_list_contains list_push
contains-push [] s id = ground arith
contains-push (x ∷ l) s id = ground (arith, contains-push l s id)

push-IsMap :
    (l : List NodeStatus) (s : NodeStatus)
    → is_list_contains l s.id ≡ false
    → IsMap l
    → IsMap (list_push l s)
unfolding list_push is_list_contains
push-IsMap [] s h m = (refl, tt)
push-IsMap (x ∷ l) s h m = ground (arith, contains-push l s x.id, push-IsMap l s)

contains-update :
    (l : List NodeStatus) (s : NodeStatus) (id : ℕ)
    → is_list_contains (list_update l s) id ≡ is_list_contains l id
unfolding is_list_contains list_update
contains-update [] s id = refl
contains-update (x ∷ l) s id = ground (arith, contains-update l s id)

update-IsMap : (l : List NodeStatus) (s : NodeStatus) → IsMap l → IsMap (list_update l s)
unfolding list_update
update-IsMap [] s m = tt
update-IsMap (x ∷ l) s m = ground (arith, contains-update l s x.id, update-IsMap l s)

abbrev replace : Option NodeStatus → NodeStatus → Option NodeStatus
replace none s = none
replace (some t) s = some s

lookup-update_any :
    (l : List NodeStatus) (s : NodeStatus) (id : ℕ)
    → lookup id (list_update l s) ≡ (if s.id == id then replace (lookup id l) s else lookup id l)
unfolding lookup list_update
lookup-update_any [] s id = ground arith
lookup-update_any (x ∷ l) s id = elim (Bool-cases (s.id == x.id)) [
  | inl e ↦ rw e (ground (arith, lookup-update_any l s id))
  | inr e ↦ rw e (ground (arith, lookup-update_any l s id))
]

lookup-update :
    (l : List NodeStatus) (s : NodeStatus) (id : ℕ)
    → is_list_contains l s.id ≡ true
    → lookup id (list_update l s) ≡ (if s.id == id then some s else lookup id l)
lookup-update l s id h =
    lookup-update_any l s id ∙ ground (arith, contains_lookup l s.id, contains_lookup l id)

-- On a list in which no id stands twice, the body of NodeResList's loop is the insertion into a
-- finite map: the status is held for its id, every other id keeps its status, and still no id stands
-- twice.
pub merge_status_lem :
    (l : List NodeStatus) (s : NodeStatus)
    → IsMap l
    → IsMap (merge_status l s)
      × ((id : ℕ) → lookup id (merge_status l s) ≡ (if s.id == id then some s else lookup id l))
unfolding merge_status
merge_status_lem l s m = elim (Bool-cases (is_list_contains l s.id)) [
  | inl old ↦ rw old (update-IsMap l s m, λ id. lookup-update l s id old)
  | inr new ↦ rw new (push-IsMap l s new m, λ id. lookup-push l s id new)
]

abbrev pub or_else : Option NodeStatus → NodeStatus → Option NodeStatus
or_else none s = some s
or_else (some t) s = some t

same_id :
    (l : List NodeStatus) (s : NodeStatus) (id : ℕ)
    → is_list_contains l s.id ≡ true
    → lookup id l ≡ (if s.id == id then or_else (lookup id l) s else lookup id l)
same_id l s id h = ground (arith, contains_lookup l id)

-- On a list in which no id stands twice, the body of the loops of NodeInitialStatus and
-- NodeAdvertise inserts the status only if its id is new: every id that was held keeps its status,
-- and still no id stands twice.
pub add_status_lem :
    (l : List NodeStatus) (s : NodeStatus)
    → IsMap l
    → IsMap (add_status l s)
      × ((id : ℕ)
          → lookup id (add_status l s)
            ≡ (if s.id == id then or_else (lookup id l) s else lookup id l))
unfolding add_status
add_status_lem l s m = elim (Bool-cases (is_list_contains l s.id)) [
  | inl old ↦ rw old (m, λ id. same_id l s id old)
  | inr new ↦
      rw new (push-IsMap l s new m, λ id. ground (arith, lookup-push l s id, contains_lookup l id))
]
