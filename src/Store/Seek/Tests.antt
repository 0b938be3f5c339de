-- ===== src/Store/Seek/Tests.antt =====
-- A file of a header of two bytes and two clusters, the second of them open.
use p2p_live_streming_system.Prelude.{
  ℕ, ◌+◌, ◌≤◌, ◌≡◌, refl, replicate, List, [], ◌∷◌, ◌++◌, arith, length, at,
}
use p2p_live_streming_system.Wire.{BlockInfo}
use p2p_live_streming_system.Ebml.{footer, update_data_buf}
use p2p_live_streming_system.Block.{zero_info}
use p2p_live_streming_system.Store.{Store}
use p2p_live_streming_system.Store.Tests.{empty_store}
use p2p_live_streming_system.Store.Seek.{cal_offset, cluster_bytes, cal_offset_lem}

abbrev clusters : List (List ℕ)
clusters = (31 ∷ 32 ∷ 33 ∷ []) ∷ []

abbrev two_clusters : Store
two_clusters = record empty_store {
  file = 11 ∷ 12 ∷ (cluster_bytes clusters ++ (footer ++ replicate 22 7));
  webm_header = 11 ∷ 12 ∷ [];
  total_file_bytes = 27;
  first_cluster_seq = 4;
}

abbrev second : BlockInfo
second = record zero_info { cluster_seq = 5; seq = 1; pos = 12; bytes = 2 }

room : length two_clusters.webm_header + length (cluster_bytes clusters) ≤ 27
unfolding update_data_buf
room = omega arith

-- The next block stands behind 2 bytes of the header, 15 of the first cluster, 12 of the header of
-- the second, and 2 of its first block.
cal_offset_lem_example :
    cal_offset two_clusters (at []) second
    ≡ length ((11 ∷ 12 ∷ []) ++ cluster_bytes clusters) + (12 + 2)
cal_offset_lem_example =
    cal_offset_lem two_clusters (at []) clusters (footer ++ replicate 22 7) second refl room
      (omega arith) refl (omega arith) (omega arith)
