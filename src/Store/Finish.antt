-- ===== src/Store/Finish.antt =====
-- The end of the stream, and what can be read from the file then.
use p2p_live_streming_system.Prelude.{
  ℕ, ◌+◌, ◌-◌, ◌^◌, ◌<◌, ◌≡◌, ◌∙◌, List, [], ◌++◌, arith, length, Buf, shift, at, at-append,
}
use mathlib.Core.List.{append_assoc}
use p2p_live_streming_system.Ebml.{get_chank, update_data_buf, footer, cluster_id}
use p2p_live_streming_system.Ebml.Header.{get_chank-cluster_header}
use p2p_live_streming_system.Ebml.Reach.{get_chank-Agree}
use p2p_live_streming_system.Fault.{ok}
use p2p_live_streming_system.Store.{
  Cluster, Store, export_webm, write_at, update_cluster_to_webm, update_cluster_data_bytes_to_webm,
  seek_abs_webm,
}
use p2p_live_streming_system.Store.Assemble.{finished, assemble_block, assemble_end}
use p2p_live_streming_system.Store.File.{write_at-end}
use p2p_live_streming_system.Store.Recording.{Recording, Represents, finish}
use p2p_live_streming_system.Store.Refine.{update_cluster-finish, position-finish}
use p2p_live_streming_system.Store.Stream.{IsFinal, assemble_block_lem, data_length}

assemble_end-file :
    (r : Recording) (s : Store) (c prev : Cluster) (size : List ℕ)
    → Represents r s c prev size
    → length r.payload < 2 ^ 56
    → (n : ℕ) → (assemble_end s c prev n).file ≡ finish r ++ footer
unfolding assemble_end export_webm update_cluster_to_webm update_cluster_data_bytes_to_webm
    seek_abs_webm
assemble_end-file r s c prev size h small n =
    let e : write_at (update_cluster_to_webm s c prev s.current_block_num).file s.position footer
        ≡ finish r ++ footer =
      rw (update_cluster-finish r s c prev size h small, position-finish r s c prev size h small)
        (write_at-end (finish r) footer) in
    e

-- The header of the last cluster of a finished recording.
pub get_chank-finish :
    (r : Recording) (rest : List ℕ)
    → length r.payload < 2 ^ 56 - 1
    → get_chank (shift (at (finish r ++ rest)) (length r.closed)) ≡ record {
      id = cluster_id;
      id_bytes = 4;
      data_header_position = 12;
      data_bytes = length r.payload;
      chank_bytes = 12 + length r.payload;
    }
unfolding get_chank update_data_buf
get_chank-finish r rest small =
    rw (append_assoc r.closed (finish (record r { closed = [] })) rest) (
      get_chank-Agree _ (at (finish (record r { closed = [] }) ++ rest))
        (λ i _. at-append r.closed (finish (record r { closed = [] }) ++ rest) i)
      ∙ get_chank-cluster_header (length r.payload) (r.payload ++ rest) small)

-- The packet that ends the stream, on a file that stands for a recording whose last cluster has less
-- than 2^56 - 1 bytes: the program ends with the finished recording and one more cluster header as
-- its file, and GetChank reads from the header of the last cluster the exact number of the bytes
-- that were written behind it.
pub assemble_block-finish :
    (r : Recording) (s : Store) (c prev : Cluster) (size : List ℕ) (p : Buf) (bytes : ℕ)
    → Represents r s c prev size
    → length r.payload < 2 ^ 56 - 1
    → IsFinal p
    → (t : Store) × (assemble_block s p bytes ≡ ok (finished t))
      × (t.file ≡ finish r ++ footer)
      × (get_chank (shift (at t.file) (length r.closed)) ≡ record {
        id = cluster_id;
        id_bytes = 4;
        data_header_position = 12;
        data_bytes = length r.payload;
        chank_bytes = 12 + length r.payload;
      })
assemble_block-finish r s c prev size p bytes h small kind = (
  assemble_end s c prev (data_length bytes),
  assemble_block_lem s c prev p bytes h.clusters ∙ rw (kind.0, kind.1),
  file,
  rw file (get_chank-finish r footer small),
)
  where
    file : (assemble_end s c prev (data_length bytes)).file ≡ finish r ++ footer
    file = assemble_end-file r s c prev size h (omega arith) (data_length bytes)
