-- ===== src/Store.antt =====
-- The WebM file that a peer writes (src/common/webm_parser.c: InitCluster, ShiftToPreCluster,
-- RenewClusterForWrite, UpdateClusterToWebM, UpdateClusterDataBytesToWebM, InsertBlockToCluster,
-- WriteWebMHeader, ExportWebM, SeekABSWebM, ChangeTimecode, AssembleBlock).
-- The stream FP is the bytes of the file and a position; writes succeed (else the program exits),
-- and closing and reopening the file in UpdateWebM keeps the position.
pub mod File
pub mod Assemble
pub mod Recording
pub mod Refine
pub mod Timecode
pub mod Blocks
pub mod Append
pub mod Retime
pub mod NewBlock
pub mod Clock
pub mod Stream
pub mod Finish
pub mod Repeat
pub mod Seek
pub mod Tests
use p2p_live_streming_system.Prelude.{
  ℕ, zero, suc, ◌+◌, ◌-◌, ◌*◌, ◌/◌, ◌%◌, ◌^◌, List, [], ◌∷◌, ◌++◌, Option, none, some, Bool, true,
  false, length, take,
}
use p2p_live_streming_system.Words.{u64}
use p2p_live_streming_system.Wire.{BlockInfo}
use p2p_live_streming_system.Ebml.{
  Chank, cluster_id, cluster_id_bytes, cluster_header_bytes, footer, update_data_buf,
}
use p2p_live_streming_system.Block.{Block, zero_info}

-- `struct Cluster` without its links.
pub record Cluster : Type 0 where
  pub info : Chank
  pub pos : ℕ
  pub seq : ℕ
  pub option : ℕ

pub record Store : Type 0 where
  pub file : List ℕ
  pub position : ℕ
  -- CURRENT_FPOS_W
  pub fpos_w : ℕ
  pub total_file_bytes : ℕ
  -- CURRENT_CLUSTER and its `prev`; `none` is NULL.
  pub clusters : Option (Cluster × Cluster)
  pub current_block : Block
  -- CURRENT_BLOCKINFO, an array of MAX_BLOCKS_NUM = 1 entry.
  pub current_blockinfo : BlockInfo
  pub current_block_num : ℕ
  pub total_block_num : ℕ
  pub latest_block_seq : ℕ
  pub first_cluster_seq : ℕ
  pub is_first_cluster : Bool
  pub webm_header : List ℕ
  pub timecode_offset : ℕ
  pub node_timecode_offset : ℕ
  pub is_get_timecode_offset : Bool

abbrev pub max_blocks_num : ℕ
max_blocks_num = 1

abbrev pub zero_chank : Chank
zero_chank = record {
  id = 0;
  id_bytes = 0;
  data_header_position = 0;
  data_bytes = 0;
  chank_bytes = 0;
}

-- `bytes` over the front of `file`.
unfoldable pub overwrite : List ℕ → List ℕ → List ℕ
overwrite file [] = file
overwrite [] (b ∷ bytes) = b ∷ bytes
overwrite (x ∷ file) (b ∷ bytes) = b ∷ overwrite file bytes

-- A write at an offset; a gap behind the end of the file is filled with zeros.
unfoldable pub write_at : List ℕ → ℕ → List ℕ → List ℕ
write_at file zero bytes = overwrite file bytes
write_at [] (suc p) bytes = 0 ∷ write_at [] p bytes
write_at (x ∷ file) (suc p) bytes = x ∷ write_at file p bytes

-- ExportWebM
unfoldable pub export_webm : Store → List ℕ → Store
export_webm s bytes = record s {
  file = write_at s.file s.position bytes;
  position = s.position + length bytes;
}

-- SeekABSWebM on CURRENT_FPOS_W.
unfoldable pub seek_abs_webm : Store → ℕ → Store
seek_abs_webm s offset = record s { position = offset; fpos_w = offset }

-- UpdateWebM on CURRENT_FPOS_W.
unfoldable pub update_webm : Store → Store
update_webm s = record s { fpos_w = s.position }

-- UpdateClusterDataBytesToWebM
unfoldable pub update_cluster_data_bytes_to_webm : Store → Cluster → Store
update_cluster_data_bytes_to_webm s cluster =
    let offset = s.position in
    let s1 = seek_abs_webm s (cluster.pos + (cluster.info.id_bytes + 1)) in
    let s2 = export_webm s1 (update_data_buf 7 cluster.info.data_bytes) in seek_abs_webm s2 offset

-- The sum of `bytes` in UpdateClusterToWebM over the first `count` infos.
abbrev pub block_bytes : Store → ℕ → ℕ
block_bytes s zero = 0
block_bytes s (suc count) = s.current_blockinfo.bytes

-- The cluster of UpdateClusterToWebM, grown by `total_data_bytes`.
abbrev pub grow : Cluster → ℕ → Cluster
grow c total_data_bytes = record c {
  info =
      (let i = c.info in
        record i {
          data_bytes = u64 (i.data_bytes + total_data_bytes);
          chank_bytes = u64 (i.chank_bytes + total_data_bytes);
        });
}

-- UpdateClusterToWebM on CURRENT_CLUSTER and CURRENT_BLOCKINFO; `count` is at most MAX_BLOCKS_NUM.
unfoldable pub update_cluster_to_webm : Store → Cluster → Cluster → ℕ → Store
update_cluster_to_webm s cluster prev count =
    let cluster' = grow cluster (block_bytes s count) in
    update_cluster_data_bytes_to_webm (record s { clusters = some (cluster', prev) }) cluster'

-- RenewClusterForWrite
unfoldable pub renew_cluster_for_write : Store → Cluster → Cluster → Store
renew_cluster_for_write s cluster prev =
    export_webm
      (record s {
        clusters = some (
          record cluster {
            pos = s.fpos_w;
            seq = s.current_block.info.cluster_seq;
            info = record {
              id = cluster_id;
              id_bytes = cluster_id_bytes;
              data_header_position = cluster_header_bytes;
              data_bytes = 0;
              chank_bytes = cluster_header_bytes;
            };
          },
          prev,
        );
      })
      footer

-- ShiftToPreCluster: the cluster and its `prev`.
unfoldable pub shift_to_pre_cluster : Cluster → Cluster × Cluster
shift_to_pre_cluster cluster = (record { info = zero_chank; pos = 0; seq = 0; option = 0 }, cluster)

-- InitCluster: `seq` and `pos` of the two, and `option` of the first, are what malloc returned.
unfoldable pub init_cluster : (ℕ → ℕ) → Cluster × Cluster
init_cluster junk = (
  record { info = zero_chank; pos = junk 0; seq = junk 1; option = junk 2 },
  record { info = zero_chank; pos = junk 3; seq = junk 4; option = 0xffff_ffff },
)
