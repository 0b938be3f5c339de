-- ===== src/Program/Cache.antt =====
-- Blocks for the children (src/common/p2p.c: SendCacheBlock, SendMulStream).
-- `old` is what uninitialised memory holds: the buffer of CalOffset, and the stack behind the packet.
use p2p_live_streming_system.Prelude.{
  ℕ, ◌+◌, ◌-◌, ◌∷◌, ◌++◌, Option, none, some, ◌==◌, ltb, if◌then◌else◌, length, min, read, Buf,
}
use p2p_live_streming_system.Prelude.Int.{ℤ, pos}
use p2p_live_streming_system.Words.{u16}
use p2p_live_streming_system.Wire.{copy_block_info_to_bytes}
use p2p_live_streming_system.Time.{eq_ℤ}
use p2p_live_streming_system.Block.{
  Block, get_next_block_by_bytes, is_old_block_seq, max_block_bytes, cluster_end, renew_block,
  shift_to_pre_block,
}
use p2p_live_streming_system.Fault.{Result, ok, err, null_pointer, endless_loop, ◌>>=◌}
use p2p_live_streming_system.Store.{Cluster, Store}
use p2p_live_streming_system.Store.Seek.{cal_offset, search_webm, search_bytes}
use p2p_live_streming_system.Node.{bit, update}
use p2p_live_streming_system.Node.Send.{send_buffer, block_proto}
use p2p_live_streming_system.Program.{Program}

-- The packet buffer behind its two headers: zeros, and the stack beyond its end.
abbrev pub zeroed : Buf → Buf
zeroed old i = if ltb i max_block_bytes then 0 else old i

-- What SendCacheBlock finds in the buffer after SearchWebM.
abbrev pub block_buffer : Store → Buf → Block → Buf
block_buffer s old block = search_webm s (zeroed old) max_block_bytes (cal_offset s old block.prev)

-- FP and CURRENT_FPOS_R: after SeekABSWebM, and behind what SearchWebM has read from there.
abbrev pub seek_r : Program → ℕ → ℕ → Program
seek_r p offset bytes = record p {
  fpos_r = offset;
  store = (let s = p.store in record s { position = offset + bytes });
}

abbrev pub searched : Store → ℕ → ℕ
searched s offset =
    min (search_bytes s.total_file_bytes max_block_bytes offset) (length s.file - offset)

-- The part of SendCacheBlock behind GetNextBlockByBytes.
unfoldable pub send_found :
    Program → ℕ → Buf → ℕ → Option (ℕ × Block) → Result (ℕ × Block × Program)
send_found p offset buf dst_id none = err endless_loop
send_found p offset buf dst_id (some (status, next)) = do
  n ←
      send_buffer p.node
        (block_proto ∷ (copy_block_info_to_bytes next.info ++ read max_block_bytes buf))
        (pos (u16 (next.info.bytes + 19))) dst_id
  ok (status, next, seek_r (record p { node = n }) offset (searched p.store offset))

-- SendCacheBlock: the status, the block, and the program.
unfoldable pub send_cache_block : Buf → Program → Block → ℕ → Result (ℕ × Block × Program)
send_cache_block old p block dst_id =
    let buf = block_buffer p.store old block in
    send_found p (cal_offset p.store old block.prev) buf dst_id
      (get_next_block_by_bytes block max_block_bytes buf)

abbrev pub set_child : Program → ℕ → Block → Program
set_child p i b = record p {
  node = (let n = p.node in record n { child_block = update n.child_block i b });
}

-- The block that follows one that was sent.
abbrev pub next_child : ℕ → Block → Block
next_child status b = if status == cluster_end then renew_block b else shift_to_pre_block b

-- CURRENT_CLUSTER->prev->seq
abbrev pub closed_seq : Option (Cluster × Cluster) → Result ℕ
closed_seq none = err null_pointer
closed_seq (some (cluster, prev)) = ok prev.seq

-- A connected child in SendMulStream, where `latest` is CURRENT_CLUSTER->prev->seq.
unfoldable pub serve_child : Buf → ℕ → Program → ℕ → ℕ → Result (Program × ℕ)
serve_child old i p count latest =
    let block = p.node.child_block i in
    if is_old_block_seq latest p.store.latest_block_seq block.prev
    then (send_cache_block old p block i >>= λ (status, next, q).
        ok (set_child q i (next_child status next), count))
    else ok (p, count + 1)

-- One round of SendMulStream: the program and `count`.
unfoldable pub send_round : Buf → ℕ → Program × ℕ → Result (Program × ℕ)
send_round old i (p, count) =
    if bit p.node.connected_nodes i
    then (closed_seq p.store.clusters >>= serve_child old i p count)
    else ok (p, count)

-- The value that SendMulStream returns for `count`.
abbrev pub stream_ret : ℕ → ℤ → ℕ
stream_ret count num = if eq_ℤ (pos count) num then 0 else 1

-- SendMulStream: the program and the value that it returns.
unfoldable pub send_mul_stream : Buf → Program → Result (Program × ℕ)
send_mul_stream old p = do
  let offset = p.store.position
  (q, count) ← send_round old 0 (p, 0) >>= send_round old 1
  ok (seek_r q offset 0, stream_ret count q.node.current_child_num)
