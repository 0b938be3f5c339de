-- ===== src/Program/Relay.antt =====
-- A block from the file of one program to the file of another: SendCacheBlock at the one, and the round
-- of Receive with AssembleBlock at the other (src/common/p2p.c, src/peer/main.c,
-- src/common/webm_parser.c).
mod Tests
use p2p_live_streming_system.Prelude.{
  ℕ, zero, suc, ◌+◌, ◌^◌, ◌≤◌, ◌<◌, ◌≡◌, refl, sym, ap, ◌∙◌, List, [], ◌∷◌, ◌++◌, some, Bool, true,
  false, not, inl, inr, Bool-cases, ◌&&◌, ◌==◌, ==_iff, if◌then◌else◌, arith, length, take, drop,
  at, read, shift, Buf,
}
use native.Mathlib.Nat.{add-zero}
use p2p_live_streming_system.Words.{htons, htonl}
use p2p_live_streming_system.Wire.{BlockInfo, IsBlockInfo, copy_bytes_to_block_info}
use p2p_live_streming_system.Packet.{
  Endpoint, IsEndpoint, receive, handler_data, ignored, arp, datagram,
}
use p2p_live_streming_system.Block.{
  Block, get_next_block_by_bytes, max_block_bytes, is_old_block_seq,
}
use p2p_live_streming_system.Block.Bounds.{Fits, IsReady, next-AllFits}
use p2p_live_streming_system.Fault.{Result, ok, err, ◌>>=◌}
use p2p_live_streming_system.Store.{Cluster, Store}
use p2p_live_streming_system.Store.Assemble.{Assembled, running, finished, is_run, assemble_block}
use p2p_live_streming_system.Store.Recording.{
  Recording, Represents, Takes, add_block, block_data, Refines,
}
use p2p_live_streming_system.Store.NewBlock.{is_new_cluster}
use p2p_live_streming_system.Store.Stream.{IsBlock, Steps, assemble_block-Steps}
use p2p_live_streming_system.Store.Seek.{cal_offset}
use p2p_live_streming_system.Node.{Node, World}
use p2p_live_streming_system.Node.Send.{block_proto}
use p2p_live_streming_system.Program.{Program, with_store}
use p2p_live_streming_system.Program.Cache.{send_cache_block, block_buffer}
use p2p_live_streming_system.Program.Frame.{Delivered}
use p2p_live_streming_system.Program.Deliver.{send_cache_block-Delivered}
use p2p_live_streming_system.Program.Receive.{
  goes_on, ended, select, handle_block, peer_dispatch, peer_frame, receive_arp,
}
use p2p_live_streming_system.Program.Accept.{peer_frame-Delivered}

-- SendCacheBlock on a block that is ready to be filled, with GetNextBlockByBytes finding a next block
-- behind the first of its cluster in the file at the place that CalOffset gives, and at least 1000
-- bytes of the file from there on, sends one frame. A peer with the address and port of the slot
-- whose file stands for a recording with less than 2^56 bytes in its last cluster, and for which the
-- block is not old, goes on from this frame with the bytes of the sender's file at that place added
-- to its recording, as many as the block has: in a new cluster if the block before was of another
-- cluster, and behind the block before otherwise.
pub send_cache_block-peer_frame :
    (old : Buf) (p : Program) (block next : Block) (status dst_id : ℕ) (q : Program) (w : World)
    (r : Recording) (c prev : Cluster) (size rest : List ℕ)
    → get_next_block_by_bytes block max_block_bytes (block_buffer p.store old block)
      ≡ some (status, next)
    → IsReady block
    → 0 < next.info.pos
    → 1 < next.info.seq
    → cal_offset p.store old block.prev + max_block_bytes ≤ p.store.total_file_bytes
    → cal_offset p.store old block.prev + max_block_bytes ≤ length p.store.file
    → IsEndpoint p.node.source
    → IsEndpoint (p.node.dst dst_id)
    → q.node.source.ip ≡ (p.node.dst dst_id).ip
    → q.node.source.port ≡ (p.node.dst dst_id).port
    → Represents r q.store c prev size
    → length r.payload < 2 ^ 56
    → is_old_block_seq prev.seq q.store.latest_block_seq next.info ≡ false
    → (sent : Program) × (frame : List ℕ) × (t : Store) × (send_cache_block old p block dst_id
        ≡ ok (status, next, sent))
      × (sent.node.sent ≡ p.node.sent ++ (frame ∷ []))
      × (peer_frame q w (at (frame ++ rest)) ≡ ok (goes_on (with_store q t)))
      × Takes
          (add_block
            (not (q.store.current_block.prev.cluster_seq == next.info.cluster_seq))
            (take next.info.bytes (drop (cal_offset p.store old block.prev) p.store.file))
            r)
          next.info
          t
send_cache_block-peer_frame old p block next status dst_id q w r c prev size rest found ready placed
      later room held hs hd ip port rep few new =
    let (sent, frame, e, one, delivered) =
      send_cache_block-Delivered old p block next status dst_id found ready room held hs hd in
    let (t, framed, taken) =
      peer_frame-Delivered next.info
        (take next.info.bytes (drop (cal_offset p.store old block.prev) p.store.file)) p.node.source
        (p.node.dst dst_id) frame rest q w r c prev size delivered placed fits.1 later ip port rep
        few new in
    (sent, frame, t, e, one, framed, taken)
  where
    fits : Fits next.info
    fits = rw found at (next-AllFits block (block_buffer p.store old block) ready)
