-- ===== src/Origin/Main/First.antt =====
-- The first cluster and its first block (src/originsource/main.c, src/common/webm_parser.c).
mod Tests
use p2p_live_streming_system.Prelude.{
  ℕ, zero, ◌-◌, ◌^◌, ◌≤◌, ◌<◌, ◌≡◌, refl, List, ◌++◌, Option, none, some, Bool, false,
  if◌then◌else◌, length, length-append, min, take, Buf, at, IsByte,
}
use p2p_live_streming_system.Ebml.Header.{cluster_header}
use p2p_live_streming_system.Wire.{IsBlockInfo}
use p2p_live_streming_system.Block.{Block, status_init}
use p2p_live_streming_system.Fault.{Result, ◌>>=◌}
use p2p_live_streming_system.Store.{Cluster, Store, init_cluster}
use p2p_live_streming_system.Program.{Program}
use p2p_live_streming_system.Origin.Cluster.Ready.{with_cluster}
use p2p_live_streming_system.Origin.Main.Opened.{Opened}

-- The program with the first cluster.
abbrev pub first_cluster : List ℕ → (ℕ → ℕ) → ℕ → Program → Program
first_cluster file junk d q = with_cluster q file d (init_cluster junk).0 (init_cluster junk).1

-- The number of the first cluster is 0, whatever malloc returned.
first_cluster-seq :
    (file : List ℕ) (junk : ℕ → ℕ) (d : ℕ) (q : Program)
    → (first_cluster file junk d q).node.cluster_seqs ≡ some (0, junk 4)
unfolding init_cluster
first_cluster-seq file junk d q = refl

module _ (old : Buf) (before file rest : List ℕ) (place d : ℕ) (junk : ℕ → ℕ) (q : Program)
    (opened : Opened before place junk q) (inside : place ≤ length before)
    (holds : file ≡ take place before ++ (cluster_header d ++ rest)) (small : d < 2 ^ 56 - 1)
    (room : d ≤ length rest) (grows : q.store.total_file_bytes ≤ length file) where
  r : Program
  r = first_cluster file junk d q
