-- ===== src/Store/Refine.antt =====
-- The writes to the file of a peer against a recording (src/common/webm_parser.c).
use p2p_live_streming_system.Prelude.{
  ℕ, ◌+◌, ◌%◌, ◌^◌, ◌<◌, ◌≡◌, refl, sym, ap, ◌∙◌, List, [], ◌∷◌, ◌++◌, some, arith, length,
  length-append,
}
use mathlib.Core.List.{append_assoc}
use p2p_live_streming_system.Ebml.{update_data_buf, footer}
use p2p_live_streming_system.Store.{
  Cluster, Store, export_webm, seek_abs_webm, update_cluster_data_bytes_to_webm,
  update_cluster_to_webm, renew_cluster_for_write, shift_to_pre_cluster, write_at, grow,
  block_bytes,
}
use p2p_live_streming_system.Store.Assemble.{next_cluster}
use p2p_live_streming_system.Store.File.{write_at-end, write_at-behind_five}
use p2p_live_streming_system.Store.Recording.{Recording, Represents, finish}

length-update_data_buf : (d : ℕ) → length (update_data_buf 7 d) ≡ 7
unfolding update_data_buf
length-update_data_buf d = refl

module _ (r : Recording) (s : Store) (c prev : Cluster) (size : List ℕ)
    (h : Represents r s c prev size) where
  length_file : length s.file ≡ length r.closed + 12 + length r.payload
  length_file = rw (h.file) (
      omega (
        arith,
        h.size_length,
        length-append size r.payload,
        length-append r.closed (0x1f ∷ 0x43 ∷ 0xb6 ∷ 0x75 ∷ 0x01 ∷ (size ++ r.payload)),
      ))

  -- A write at the end of the file.
  pub export_webm-end : (bytes : List ℕ) → write_at s.file s.position bytes ≡ s.file ++ bytes
  export_webm-end bytes = rw (h.position) (write_at-end s.file bytes)

  module _ (small : length r.payload < 2 ^ 56) where
    pub grown : (c.info.data_bytes + block_bytes s s.current_block_num) % 2 ^ 64 ≡ length r.payload
    grown = omega (arith, h.data_bytes)

    -- UpdateClusterToWebM leaves the exact size in the file.
    pub update_cluster-finish :
        (update_cluster_to_webm s c prev s.current_block_num).file ≡ finish r
    unfolding update_cluster_to_webm update_cluster_data_bytes_to_webm seek_abs_webm export_webm
    update_cluster-finish =
        rw (grown, h.file, h.pos, h.id_bytes)
          (write_at-behind_five r.closed size (update_data_buf 7 (length r.payload)) r.payload 0x1f
            0x43 0xb6 0x75 0x01 (h.size_length ∙ sym (length-update_data_buf (length r.payload))))

pub length-finish : (r : Recording) → length (finish r) ≡ length r.closed + 12 + length r.payload
unfolding update_data_buf
length-finish r = omega (arith, length-append r.closed (finish (record r { closed = [] })))

module _ (r : Recording) (s : Store) (c prev : Cluster) (size : List ℕ)
    (h : Represents r s c prev size) (small : length r.payload < 2 ^ 56) where
  pub position-finish : s.position ≡ length (finish r)
  position-finish = h.position ∙ length_file r s c prev size h ∙ sym (length-finish r)

  -- UpdateClusterToWebM, with the blocks that it counted taken off.
  pub update_cluster-Represents :
      (t : Store)
      → t.clusters ≡ some (grow c (block_bytes s s.current_block_num), prev)
      → t.file ≡ (update_cluster_to_webm s c prev s.current_block_num).file
      → t.position ≡ s.position
      → t.current_block_num ≡ 0
      → Represents r t
          (grow c (block_bytes s s.current_block_num))
          prev
          (update_data_buf 7 (length r.payload))
  update_cluster-Represents t clusters file position num = record {
    clusters = clusters;
    file = file ∙ finished;
    size_length = length-update_data_buf (length r.payload);
    position = position ∙ position-finish ∙ sym (ap length (file ∙ finished));
    pos = h.pos;
    id_bytes = h.id_bytes;
    data_bytes = rw num (omega (arith, grown r s c prev size h small));
    pending = omega (arith, num);
  }
    where
      finished : (update_cluster_to_webm s c prev s.current_block_num).file ≡ finish r
      finished = update_cluster-finish r s c prev size h small

  -- The new cluster of InsertBlockToCluster closes the one before.
  pub next_cluster-Represents :
      Represents
        (record { closed = finish r; payload = [] })
        (next_cluster s c prev)
        (record (shift_to_pre_cluster (grow c (block_bytes s s.current_block_num))).0 {
          pos = s.position;
          seq = s.current_block.info.cluster_seq;
          info = record {
            id = 0x1f43b675;
            id_bytes = 4;
            data_header_position = 12;
            data_bytes = 0;
            chank_bytes = 12;
          };
        })
        (grow c (block_bytes s s.current_block_num))
        (0xff ∷ 0xff ∷ 0xff ∷ 0xff ∷ 0xff ∷ 0xff ∷ 0xff ∷ [])
  unfolding next_cluster shift_to_pre_cluster renew_cluster_for_write export_webm
      update_cluster_to_webm update_cluster_data_bytes_to_webm seek_abs_webm
  next_cluster-Represents = record {
    clusters = refl;
    file = file;
    size_length = refl;
    position = end;
    pos = position-finish;
    id_bytes = refl;
    data_bytes = refl;
    pending = omega arith;
  }
    where
      file :
          write_at (update_cluster_to_webm s c prev s.current_block_num).file s.position footer
          ≡ finish r ++ footer
      file =
          rw (update_cluster-finish r s c prev size h small, position-finish)
            (write_at-end (finish r) footer)

      end :
          s.position + 12
          ≡ length (
              write_at (update_cluster_to_webm s c prev s.current_block_num).file s.position footer)
      end = rw file (omega (arith, position-finish, length-append (finish r) footer))

-- A block written behind the last one, and not counted yet.
pub append-Represents :
    (r : Recording) (s : Store) (c prev : Cluster) (size : List ℕ)
    → Represents r s c prev size
    → s.current_block_num ≡ 0
    → (t : Store) (bytes : List ℕ) → t.clusters ≡ s.clusters
    → t.file ≡ s.file ++ bytes
    → t.position ≡ s.position + length bytes
    → t.current_block_num ≡ 1
    → t.current_blockinfo.bytes ≡ length bytes
    → Represents (record { closed = r.closed; payload = r.payload ++ bytes }) t c prev size
append-Represents r s c prev size h zero_num t bytes clusters file position num count = record {
  clusters = clusters ∙ h.clusters;
  file =
      rw
        (
          file,
          h.file,
          append_assoc r.closed (0x1f ∷ 0x43 ∷ 0xb6 ∷ 0x75 ∷ 0x01 ∷ (size ++ r.payload)) bytes,
          append_assoc size r.payload bytes,
        )
        refl;
  size_length = h.size_length;
  position = rw file (omega (arith, position, h.position, length-append s.file bytes));
  pos = h.pos;
  id_bytes = h.id_bytes;
  data_bytes = rw num (omega (arith, h.data_bytes, counted, count, length-append r.payload bytes));
  pending = omega (arith, num);
}
  where
    counted : block_bytes s s.current_block_num ≡ 0
    counted = rw zero_num
