-- ===== src/Store/Repeat.antt =====
-- Blocks that arrive again.
use p2p_live_streming_system.Prelude.{
  ℕ, ◌^◌, ◌≤◌, ◌≢◌, ◌<◌, ◌≡◌, List, Bool, false, if◌then◌else◌, arith, length, Buf, shift, read,
}
use p2p_live_streming_system.Wire.{BlockInfo, copy_bytes_to_block_info}
use p2p_live_streming_system.Block.{is_old_block_seq}
use p2p_live_streming_system.Fault.{Result, Ensures, ok}
use p2p_live_streming_system.Store.{Cluster, Store}
use p2p_live_streming_system.Store.Assemble.{running, assemble_block}
use p2p_live_streming_system.Store.Recording.{Recording, Represents, block_data}
use p2p_live_streming_system.Store.Clock.{HasClock}
use p2p_live_streming_system.Store.NewBlock.{is_new_cluster}
use p2p_live_streming_system.Store.Stream.{IsBlock, Steps, store_of, assemble_block-Steps}

-- A block of the cluster that is being written, behind the first of its cluster, on a file that
-- stands for a recording whose last cluster has less than 2^56 bytes, where the cluster closed last
-- has a smaller number: the block is appended even if it does not lie behind the latest block, since
-- IsOldBlockSeq asks only whether its cluster is the one closed last.
pub assemble_block-repeated :
    (r : Recording) (s : Store) (c prev : Cluster) (size : List ℕ) (p : Buf) (bytes : ℕ)
    → Represents r s c prev size
    → length r.payload < 2 ^ 56
    → IsBlock p
    → let info = copy_bytes_to_block_info p in
      prev.seq < info.cluster_seq
      → info.cluster_seq ≡ s.current_block.prev.cluster_seq
      → info.seq ≤ s.latest_block_seq
      → info.seq ≢ 1
      → Steps r false info (ok (read info.bytes (shift p 18))) (assemble_block s p bytes)
assemble_block-repeated r s c prev size p bytes h small kind closed same late other =
    go _ _ _ old_false new_false kept_data
      (assemble_block-Steps r s c prev size p bytes h small kind)
  where
    info : BlockInfo
    info = copy_bytes_to_block_info p

    old_false : is_old_block_seq prev.seq s.latest_block_seq info ≡ false
    old_false = unfold is_old_block_seq in ground arith

    new_false : is_new_cluster s p ≡ false
    new_false = ground (arith, same)

    kept_data : block_data s p ≡ ok (read info.bytes (shift p 18))
    kept_data = ground (arith, other)

    go :
        (old new : Bool) (x : Result (List ℕ))
        → old ≡ false
        → new ≡ false
        → x ≡ ok (read info.bytes (shift p 18))
        → (if old
            then assemble_block s p bytes ≡ ok (running s)
            else ((Steps r new info x (assemble_block s p bytes))
                × Ensures (λ a. HasClock s p (store_of a)) (assemble_block s p bytes)))
        → Steps r false info (ok (read info.bytes (shift p 18))) (assemble_block s p bytes)
    go old new x a b e f = (rw (a, b, e) at f).0
