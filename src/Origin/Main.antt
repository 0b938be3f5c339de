-- ===== src/Origin/Main.antt =====
-- The part of the origin's main that streams (src/originsource/main.c, from UpdateWebMHeaderFromWebM on).
-- `files k` is the file that the `k`-th call of `fstat` finds; `none` is out of fuel.
pub mod Opened
pub mod First
use p2p_live_streming_system.Prelude.{ℕ, zero, suc, ◌+◌, List, Option, none, some, length, Buf}
use p2p_live_streming_system.Block.{Block, init_block}
use p2p_live_streming_system.Fault.{Result, ok, err, null_pointer, ◌>>=◌}
use p2p_live_streming_system.Store.{Cluster, Store, init_cluster, shift_to_pre_cluster}
use p2p_live_streming_system.Program.{Program, with_store}
use p2p_live_streming_system.Origin.Read.{seek_abs_r, block_loop}
use p2p_live_streming_system.Origin.Cluster.{
  update_webm_header_from_webm, update_cluster_from_webm, init_child_blocks,
}

-- The lines behind UpdateWebMHeaderFromWebM up to the loop over the clusters. `junk` is what malloc
-- gives InitCluster, and `blocks` what it gives InitChildBlocks.
abbrev pub started : (ℕ → ℕ) → (ℕ → Block) → Program → Program
started junk blocks p =
    let q = seek_abs_r p (length p.store.webm_header) in
    init_child_blocks
      (with_store q (
        let s = q.store in
        record s {
          clusters = some (init_cluster junk);
          current_block = init_block;
          first_cluster_seq = 0;
        }))
      blocks

abbrev pub after_webm_header : (ℕ → ℕ) → (ℕ → Block) → Option Program → Result (Option Program)
after_webm_header junk blocks none = ok none
after_webm_header junk blocks (some p) = ok (some (started junk blocks p))

-- The start of streaming.
unfoldable pub start_streaming :
    ℕ → Buf → (ℕ → List ℕ) → (ℕ → ℕ) → (ℕ → Block) → Program → Result (Option Program)
start_streaming fuel old files junk blocks p =
    update_webm_header_from_webm fuel old files p >>= after_webm_header junk blocks

-- ShiftToPreCluster on CURRENT_CLUSTER, at the end of a cluster.
abbrev pub close_cluster : Program → Option (Cluster × Cluster) → Result (Option Program)
close_cluster p none = err null_pointer
close_cluster p (some (cluster, prev)) = ok (
    some (
      with_store p
        (let s = p.store in record s { clusters = some (shift_to_pre_cluster cluster) })))

abbrev pub after_blocks : Option Program → Result (Option Program)
after_blocks none = ok none
after_blocks (some p) = close_cluster p p.store.clusters

abbrev pub after_update : ℕ → Buf → Option Program → Result (Option Program)
after_update fuel old none = ok none
after_update fuel old (some p) = block_loop fuel old p >>= after_blocks

-- One round of the loop over the clusters, whose condition always holds.
unfoldable pub cluster_round : ℕ → Buf → (ℕ → List ℕ) → Program → Result (Option Program)
cluster_round fuel old files p = update_cluster_from_webm fuel old files p >>= after_update fuel old

-- `n` rounds of the loop; `files r` is what the calls of `fstat` in round `r` find.
unfoldable pub cluster_rounds : ℕ → ℕ → Buf → (ℕ → ℕ → List ℕ) → Program → Result (Option Program)
cluster_rounds zero fuel old files p = ok (some p)
cluster_rounds (suc n) fuel old files p = cluster_round fuel old (files 0) p >>= λ o. elim o [
  | none ↦ ok none
  | some q ↦ cluster_rounds n fuel old (λ r. files (r + 1)) q
]
