-- ===== src/Store/Assemble.antt =====
-- AssembleBlock and the functions that it is made of.
use p2p_live_streming_system.Prelude.{
  ℕ, zero, suc, ◌+◌, ◌-◌, ◌^◌, List, none, some, Bool, true, false, not, ◌&&◌, ◌==◌, ltb, leb,
  if◌then◌else◌, length, read, get_or, Buf, shift,
}
use p2p_live_streming_system.Words.{u16, u64}
use p2p_live_streming_system.Wire.{BlockInfo, copy_bytes_to_block_info, blockinfo_bytes}
use p2p_live_streming_system.Ebml.{Chank, get_chank, carry, timecode_id, footer, update_data_buf}
use p2p_live_streming_system.Block.{zero_info, is_old_block_seq, shift_to_pre_block}
use p2p_live_streming_system.Fault.{Result, ok, err, null_pointer, buffer_overflow, exited, ◌>>=◌}
use p2p_live_streming_system.Store.{
  Cluster, Store, export_webm, update_webm, update_cluster_to_webm, renew_cluster_for_write,
  shift_to_pre_cluster, max_blocks_num, grow, block_bytes,
}

-- `memcmp` of the first `n` bytes with a run of one value.
abbrev pub is_run : ℕ → ℕ → Buf → Bool
is_run zero b p = true
is_run (suc n) b p = p 0 == b && is_run n b (shift p 1)

-- The first `length bytes` bytes from `offset` on replaced.
abbrev pub patch : Buf → ℕ → List ℕ → Buf
patch p offset bytes i =
    if leb offset i && ltb i (offset + length bytes) then get_or bytes (i - offset) 0 else p i

-- MAX_PACKET_SIZE
abbrev pub max_packet_size : ℕ
max_packet_size = 1514

-- The bytes of the packet buffer behind the info of a block, which stands behind the headers and the
-- protocol byte.
abbrev pub packet_room : ℕ
packet_room = max_packet_size - 43 - blockinfo_bytes

-- The part of ChangeTimecode for a time code.
abbrev pub changed : Store → Buf → Chank → Result (Store × Buf)
changed s p timecode =
    let timestamp = carry timecode.data_bytes (shift p timecode.data_header_position) 0 in
    let s' = if s.is_get_timecode_offset then s else record s {
      timecode_offset = u64 (timestamp + s.node_timecode_offset);
      is_get_timecode_offset = true;
    } in
    let modified = u64 (timestamp + s'.node_timecode_offset + 2 ^ 64 - s'.timecode_offset) in
    ok (s', patch p timecode.data_header_position (update_data_buf timecode.data_bytes modified))

-- ChangeTimecode on the data of a block in the packet buffer: the memory with the new time code, and the
-- offset. A time code that reaches beyond the buffer is read and written past its end. One of more than
-- eight bytes would be shifted by 64 bits and more; the value of such a shift is taken as 0.
unfoldable pub change_timecode : Store → Buf → Result (Store × Buf)
change_timecode s p =
    let timecode = get_chank p in
    if timecode.id == timecode_id
    then (if ltb packet_room (timecode.data_header_position + timecode.data_bytes)
        then err buffer_overflow
        else changed s p timecode)
    else err exited

-- CheckClusterSeq
abbrev pub check_cluster_seq : Store → Bool
check_cluster_seq s = not (s.current_block.prev.cluster_seq == s.current_block.info.cluster_seq)

-- The new cluster of InsertBlockToCluster.
unfoldable pub next_cluster : Store → Cluster → Cluster → Store
next_cluster s cluster prev =
    let s1 = update_cluster_to_webm s cluster prev s.current_block_num in
    let (cluster', prev') =
      shift_to_pre_cluster (grow cluster (block_bytes s s.current_block_num)) in
    let s2 = renew_cluster_for_write s1 cluster' prev' in record s2 { current_block_num = 0 }

-- InsertBlockToCluster
unfoldable pub insert_block_to_cluster : Store → Cluster → Cluster → Buf → ℕ → Store
insert_block_to_cluster s cluster prev recv_data bytes =
    let s' = if check_cluster_seq s then next_cluster s cluster prev else s in
    export_webm s' (read bytes (shift recv_data blockinfo_bytes))

-- The case of AssembleBlock for the WebM header.
unfoldable pub assemble_header : Store → Cluster → Cluster → Buf → ℕ → Store
assemble_header s cluster prev p block_data_bytes =
    let header = read block_data_bytes (shift p blockinfo_bytes) in
    let s1 = export_webm s header in
    let s2 = update_webm (record s1 { webm_header = header }) in
    let s3 = renew_cluster_for_write s2 cluster prev in
    record s3 { total_file_bytes = s3.total_file_bytes + block_data_bytes }

-- The case for the end of the stream, after which the program exits with this file.
unfoldable pub assemble_end : Store → Cluster → Cluster → ℕ → Store
assemble_end s cluster prev block_data_bytes =
    let s1 = update_cluster_to_webm s cluster prev s.current_block_num in
    let s2 = export_webm s1 footer in
    record s2 { total_file_bytes = s2.total_file_bytes + block_data_bytes }

-- The block before this one, which is still to be counted in the cluster's size.
unfoldable pub flush_block : Store → Cluster → Cluster → Store
flush_block s cluster prev =
    if s.current_block_num == max_blocks_num
    then (let s1 = update_webm (update_cluster_to_webm s cluster prev max_blocks_num) in
        record s1 { current_block_num = 0; current_blockinfo = zero_info })
    else s

-- The last lines of AssembleBlock, from InsertBlockToCluster on.
unfoldable pub append_block : Store → Buf → ℕ → Result Store
append_block s p block_data_bytes = elim s.clusters [
  | none ↦ err null_pointer
  | some (cluster, prev) ↦ ok (
      let s1 = insert_block_to_cluster s cluster prev p s.current_block.info.bytes in
      record s1 {
        current_blockinfo = copy_bytes_to_block_info p;
        total_file_bytes = s1.total_file_bytes + block_data_bytes;
        total_block_num = u64 (s1.total_block_num + 1);
        current_block = shift_to_pre_block s1.current_block;
        current_block_num = s1.current_block_num + 1;
      })
]

abbrev first_block_seq : ℕ
first_block_seq = 1

-- ChangeTimecode on the first block of a cluster.
unfoldable pub retime : Store → Buf → Result (Store × Buf)
retime s p =
    if s.current_block.info.seq == first_block_seq
    then (change_timecode s (shift p blockinfo_bytes) >>= λ (s', q).
        ok (s', λ i. if ltb i blockinfo_bytes then p i else q (i - blockinfo_bytes)))
    else ok (s, p)

-- The flag of the first cluster, and the new info of CURRENT_BLOCK.
abbrev pub first_cluster : Store → BlockInfo → Store
first_cluster s info =
    if s.is_first_cluster
    then record s { first_cluster_seq = info.cluster_seq; is_first_cluster = false }
    else s

abbrev pub take_info : Store → BlockInfo → Store
take_info s info = record s {
  current_block = (let block = s.current_block in record block { info = info });
}

-- The case of AssembleBlock for a block that is not old.
unfoldable pub assemble_new : Store → Cluster → Cluster → Buf → ℕ → Result Store
assemble_new s cluster prev p block_data_bytes = do
  let info = copy_bytes_to_block_info p
  let flushed = flush_block (first_cluster s info) cluster prev
  (s', q) ← retime (take_info flushed info) p
  append_block (record s' { latest_block_seq = s'.current_block.info.seq }) q block_data_bytes

-- The case of AssembleBlock for a block.
unfoldable pub assemble_data : Store → Cluster → Cluster → Buf → ℕ → Result Store
assemble_data s cluster prev p block_data_bytes =
    if is_old_block_seq prev.seq s.latest_block_seq (copy_bytes_to_block_info p)
    then ok s
    else assemble_new s cluster prev p block_data_bytes

-- What AssembleBlock leaves: a program that goes on, or the file with which it exits.
pub data Assembled : Type 0 where
  running : Store → Assembled
  finished : Store → Assembled

-- AssembleBlock
unfoldable pub assemble_block : Store → Buf → ℕ → Result Assembled
assemble_block s p bytes =
    let block_data_bytes = u16 (bytes + 2 ^ 16 - blockinfo_bytes) in
    elim s.clusters [
      | none ↦ err null_pointer
      | some (cluster, prev) ↦
          if is_run blockinfo_bytes 0 p
          then ok (running (assemble_header s cluster prev p block_data_bytes))
          else if is_run blockinfo_bytes 0xff p
          then ok (finished (assemble_end s cluster prev block_data_bytes))
          else (assemble_data s cluster prev p block_data_bytes >>= λ s'. ok (running s'))
    ]
