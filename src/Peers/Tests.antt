-- ===== src/Peers/Tests.antt =====
-- A list of three peers.
use p2p_live_streming_system.Prelude.{ℕ, ◌≡◌, refl, List, [], ◌∷◌, some, ◌==◌, if◌then◌else◌, arith}
use p2p_live_streming_system.Prelude.Int.{pos}
use p2p_live_streming_system.Wire.{NodeStatus}
use p2p_live_streming_system.Block.{zero_info}
use p2p_live_streming_system.Peers.{
  get_cloest_layer, diff_layers, is_list_contains, is_except_list_contains, get_prior_list,
  prior_loop, merge_status,
}
use p2p_live_streming_system.Peers.Update.{lookup, IsMap, merge_status_lem}
use p2p_live_streming_system.Peers.Prior.{
  last_layer, FirstCandidate, get_cloest_layer_lem, get_prior_list-FirstCandidate,
}

abbrev peer : ℕ → ℕ → NodeStatus
peer id layer = record {
  info = record zero_info { layer = layer };
  id = id;
  ipaddr = 0;
  p_ipaddr = 0;
  port = 0;
  timestamp = record { tv_sec = pos 0; tv_usec = pos 0 };
}

abbrev peers : List NodeStatus
peers = peer 11 1 ∷ peer 12 3 ∷ peer 13 3 ∷ []

-- A node in layer 1 is sent to layer 3, though a peer of its own layer stands in the list.
prior_lem : get_prior_list 1 (5 ∷ 12 ∷ []) peers ≡ some (peer 13 3)
unfolding get_prior_list get_cloest_layer diff_layers prior_loop is_except_list_contains
prior_lem = refl

get_cloest_layer_lem_example : get_cloest_layer 1 peers ≡ last_layer 1 peers
get_cloest_layer_lem_example = get_cloest_layer_lem 1 peers (omega arith) (omega arith)

get_prior_list-FirstCandidate_example :
    FirstCandidate (last_layer 1 peers) (5 ∷ 12 ∷ []) peers (get_prior_list 1 (5 ∷ 12 ∷ []) peers)
get_prior_list-FirstCandidate_example =
    get_prior_list-FirstCandidate 1 (5 ∷ 12 ∷ []) peers (omega arith) (omega arith)

peers-IsMap : IsMap peers
unfolding is_list_contains
peers-IsMap = (refl, (refl, (refl, tt)))

merge_status_lem_example :
    IsMap (merge_status peers (peer 12 2))
    × ((id : ℕ)
        → lookup id (merge_status peers (peer 12 2))
          ≡ (if 12 == id then some (peer 12 2) else lookup id peers))
merge_status_lem_example = merge_status_lem peers (peer 12 2) peers-IsMap
