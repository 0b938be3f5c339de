-- ===== src/Origin/Main/First/Tests.antt =====
-- The origin before the first cluster of a file with a header of two bytes.
use p2p_live_streming_system.Prelude.{ℕ, List, [], ◌∷◌, ◌++◌, take, replicate}
use p2p_live_streming_system.Ebml.{footer}
use p2p_live_streming_system.Ebml.Header.{cluster_header}
use p2p_live_streming_system.Program.{Program}
use p2p_live_streming_system.Program.Tests.{first, elements}
use p2p_live_streming_system.Program.Returns.Tests.{serving}
use p2p_live_streming_system.Origin.Main.{started}
use p2p_live_streming_system.Origin.Main.Opened.{Opened}
use p2p_live_streming_system.Origin.Main.First.{first_cluster}

-- The file that was read for the header, and the file with the first cluster.
abbrev before : List ℕ
before = 11 ∷ 12 ∷ []

abbrev behind : List ℕ
behind = elements ++ (footer ++ replicate 1000 7)

abbrev file : List ℕ
file = take 2 before ++ (cluster_header 8 ++ behind)

abbrev headed : Program
headed = record serving {
  store = (let s = serving.store in record s { webm_header = before; total_file_bytes = 2 });
}

abbrev opened_program : Program
opened_program = started (λ k. k) (λ i. first) headed

abbrev clustered : Program
clustered = first_cluster file (λ k. k) 8 opened_program
