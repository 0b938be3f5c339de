-- ===== src/Program/Deliver.antt =====
-- A block from the file of one program to the handler of another.
use p2p_live_streming_system.Prelude.{
  ℕ, ◌+◌, ◌≤◌, ◌≡◌, refl, sym, ap, ◌∙◌, List, [], ◌∷◌, ◌++◌, some, length, take, drop, read, Buf,
}
use p2p_live_streming_system.Packet.{IsEndpoint, packet_generate}
use p2p_live_streming_system.Block.{Block, get_next_block_by_bytes, max_block_bytes}
use p2p_live_streming_system.Block.Bounds.{Fits, IsReady, next-AllFits}
use p2p_live_streming_system.Fault.{ok}
use p2p_live_streming_system.Store.Seek.{cal_offset}
use p2p_live_streming_system.Store.Seek.Read.{search_webm-read}
use p2p_live_streming_system.Node.{send_packet}
use p2p_live_streming_system.Node.Send.{block_proto}
use p2p_live_streming_system.Program.{Program}
use p2p_live_streming_system.Program.Cache.{
  send_cache_block, send_found, block_buffer, zeroed, seek_r, searched,
}
use p2p_live_streming_system.Program.Frame.{
  block_payload, send_buffer-block, Delivered, frame-Delivered,
}

-- SendCacheBlock on a block that is ready to be filled, with GetNextBlockByBytes finding a next block
-- in the file at the place that CalOffset gives, and at least 1000 bytes of the file from there on:
-- it sends one frame. A peer accepts the frame exactly if its address and port are those of the
-- slot, and reads in it the info of the next block and the bytes of the file at that place, as many
-- as the info says.
pub send_cache_block-Delivered :
    (old : Buf) (p : Program) (block next : Block) (status dst_id : ℕ)
    → get_next_block_by_bytes block max_block_bytes (block_buffer p.store old block)
      ≡ some (status, next)
    → IsReady block
    → cal_offset p.store old block.prev + max_block_bytes ≤ p.store.total_file_bytes
    → cal_offset p.store old block.prev + max_block_bytes ≤ length p.store.file
    → IsEndpoint p.node.source
    → IsEndpoint (p.node.dst dst_id)
    → (q : Program) × (frame : List ℕ) × (send_cache_block old p block dst_id
        ≡ ok (status, next, q))
      × (q.node.sent ≡ p.node.sent ++ (frame ∷ []))
      × Delivered next.info
          (take next.info.bytes (drop (cal_offset p.store old block.prev) p.store.file))
          p.node.source
          (p.node.dst dst_id)
          frame
unfolding send_cache_block send_packet
send_cache_block-Delivered old p block next status dst_id e ready room held hs hd = (
  seek_r (record p { node = send_packet p.node (block_proto ∷ block_payload next.info buf) dst_id })
      (cal_offset p.store old block.prev) (searched p.store (cal_offset p.store old block.prev)),
  frame,
  ap (send_found p (cal_offset p.store old block.prev) buf dst_id) e ∙ sent,
  refl,
  rw bytes
      (frame-Delivered p.node.source (p.node.dst dst_id) next.info buf hs hd (fits.0) (fits.1)),
)
  where
    buf : Buf
    buf = block_buffer p.store old block

    fits : Fits next.info
    fits = rw e at (next-AllFits block buf ready)

    sent :
        send_found p (cal_offset p.store old block.prev) buf dst_id (some (status, next))
        ≡ ok (
          status,
          next,
          seek_r
              (record p {
                node = send_packet p.node (block_proto ∷ block_payload next.info buf) dst_id;
              })
              (cal_offset p.store old block.prev)
              (searched p.store (cal_offset p.store old block.prev)),
        )
    sent = unfold send_found in rw (send_buffer-block p.node next.info buf dst_id fits.1) refl

    frame : List ℕ
    frame =
        packet_generate p.node.source (p.node.dst dst_id)
          (block_proto ∷ block_payload next.info buf)

    bytes :
        take next.info.bytes (drop (cal_offset p.store old block.prev) p.store.file)
        ≡ read next.info.bytes buf
    bytes = sym (
        search_webm-read p.store (zeroed old) max_block_bytes next.info.bytes
          (cal_offset p.store old block.prev) room held fits.1)
