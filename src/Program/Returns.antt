-- ===== src/Program/Returns.antt =====
-- When a call of SendMulStream returns (src/common/p2p.c).
pub mod Tests
use p2p_live_streming_system.Prelude.{
  ℕ, ◌+◌, ◌<◌, ◌≡◌, refl, sym, ap, ◌∙◌, Option, none, some, Bool, true, false, Bool-cases, inl, inr,
  ltb, not, ◌&&◌, ◌==◌, if◌then◌else◌, arith, at, IsByte, Buf,
}
use mathlib.Core.Path.{subst}
use p2p_live_streming_system.Block.{
  Block, get_next_block_by_bytes, max_block_bytes, is_old_block_seq,
}
use p2p_live_streming_system.Block.Bounds.{Fits, IsReady, next-AllFits}
use p2p_live_streming_system.Block.Total.{IsScannable, scan_start, next-IsSome}
use p2p_live_streming_system.Fault.{Result, ok, err, Ensures, ◌>>=◌}
use p2p_live_streming_system.Store.{Cluster, Store}
use p2p_live_streming_system.Store.Seek.{cal_offset, cluster_offset, search_webm}
use p2p_live_streming_system.Node.{bit}
use p2p_live_streming_system.Node.Invariant.{Counted}
use p2p_live_streming_system.Program.{Program}
use p2p_live_streming_system.Program.Cache.{
  send_cache_block, send_found, block_buffer, zeroed, closed_seq, serve_child, send_round,
  send_mul_stream,
}
use p2p_live_streming_system.Program.Frame.{send_buffer-block}
use p2p_live_streming_system.Program.Caught.{is_old, lags, SentTo, IsRound, send_round_lem}
use p2p_live_streming_system.Program.Gets.{Sent, send_mul_stream-Sent}
use p2p_live_streming_system.Program.Progress.{Streamed, send_mul_stream_lem}

abbrev pub IsOk {ℓ} : {A : Type ℓ} → Result A → Type ℓ
IsOk {A = A} r = (a : A) × (r ≡ ok a)

-- Reads of the file and of uninitialised memory give bytes.
pub record HasBytes (old : Buf) (s : Store) : Type 0 where
  pub file : (i : ℕ) → IsByte (at s.file i)
  pub memory : (i : ℕ) → IsByte (old i)

pub choose-IsByte : (b : Bool) (x y : ℕ) → IsByte x → IsByte y → IsByte (if b then x else y)
choose-IsByte true x y h k = h
choose-IsByte false x y h k = k

block_buffer-IsByte :
    (old : Buf) (s : Store) (block : Block)
    → HasBytes old s
    → (i : ℕ) → IsByte (block_buffer s old block i)
unfolding search_webm
block_buffer-IsByte old s block h i =
    choose-IsByte _ _ _ (h.file _) (choose-IsByte _ 0 (old i) (omega arith) (h.memory i))

-- The next block for a child can be made.
pub record CanSend (old : Buf) (s : Store) (block : Block) : Type 0 where
  pub ready : IsReady block
  pub scannable : IsScannable (scan_start block.prev) (block_buffer s old block)

send_found-IsOk :
    (p : Program) (offset : ℕ) (buf : Buf) (dst_id status : ℕ) (next : Block)
    → Fits next.info
    → IsOk (send_found p offset buf dst_id (some (status, next)))
unfolding send_found
send_found-IsOk p offset buf dst_id status next fits =
    rw (send_buffer-block p.node next.info buf dst_id fits.1) (_, refl)

send_cache_block-IsOk :
    (old : Buf) (p : Program) (block : Block) (dst_id : ℕ)
    → HasBytes old p.store
    → CanSend old p.store block
    → IsOk (send_cache_block old p block dst_id)
unfolding send_cache_block
send_cache_block-IsOk old p block dst_id bytes h =
    let ((status, next), e) =
      next-IsSome block buf (block_buffer-IsByte old p.store block bytes) h.ready h.scannable in
    let (value, sent) =
      send_found-IsOk p (cal_offset p.store old block.prev) buf dst_id status next
        (rw e at (next-AllFits block buf h.ready)) in
    (value, ap (send_found p (cal_offset p.store old block.prev) buf dst_id) e ∙ sent)
  where
    buf : Buf
    buf = block_buffer p.store old block

pub then-IsOk {ℓ κ} :
    {A : Type ℓ} {B : Type κ} (r : Result A) (f : A → Result B)
    → IsOk r
    → ((a : A) → r ≡ ok a → IsOk (f a))
    → IsOk (r >>= f)
then-IsOk r f (a, e) h = rw e (h a e)

serve_child-IsOk :
    (old : Buf) (i : ℕ) (p : Program) (count latest : ℕ)
    → HasBytes old p.store
    → (is_old p latest i ≡ true → CanSend old p.store (p.node.child_block i))
    → IsOk (serve_child old i p count latest)
unfolding serve_child
serve_child-IsOk old i p count latest bytes h = elim (Bool-cases (is_old p latest i)) [
  | inr new ↦ rw new (_, refl)
  | inl lagging ↦ rw lagging (
      then-IsOk (send_cache_block old p (p.node.child_block i) i) _
        (send_cache_block-IsOk old p (p.node.child_block i) i bytes (h lagging)) λ a e. (_, refl))
]

-- A round of SendMulStream.
send_round-IsOk :
    (old : Buf) (i : ℕ) (p : Program) (count : ℕ) (c prev : Cluster)
    → p.store.clusters ≡ some (c, prev)
    → HasBytes old p.store
    → (lags p prev.seq i ≡ true → CanSend old p.store (p.node.child_block i))
    → IsOk (send_round old i (p, count))
unfolding send_round
send_round-IsOk old i p count c prev clusters bytes h =
    elim (Bool-cases (bit p.node.connected_nodes i)) [
      | inr off ↦ rw off (_, refl)
      | inl on ↦ rw on (closed on p.store.clusters clusters)
    ]
  where
    closed :
        bit p.node.connected_nodes i ≡ true
        → (o : Option (Cluster × Cluster)) → o ≡ some (c, prev)
        → IsOk (closed_seq o >>= serve_child old i p count)
    closed on o e =
        rw e (serve_child-IsOk old i p count prev.seq bytes λ lagging. h (rw (on, lagging) refl))

-- The value of a call that returns.
pub ensured {ℓ κ} :
    {A : Type ℓ} (P : A → Type κ) (r : Result A) (a : A) → r ≡ ok a → Ensures P r → P a
ensured P r a e h = rw e at h

-- Where FP stands does not matter to the next block.
moved-CanSend :
    (old : Buf) (s : Store) (position : ℕ) (block : Block)
    → CanSend old s block
    → CanSend old (record s { position = position }) block
unfolding cal_offset cluster_offset search_webm
moved-CanSend old s position block h = record { ready = h.ready; scannable = h.scannable }

-- A program after one round.
second-CanSend :
    (old : Buf) (p q : Program) (latest count k : ℕ)
    → IsRound latest 0 p count q k
    → (lags p latest 1 ≡ true → CanSend old p.store (p.node.child_block 1))
    → lags q latest 1 ≡ true
    → CanSend old q.store (q.node.child_block 1)
second-CanSend old p q latest count k round h lagging =
    rw (round.sent.store, round.sent.others 1 refl)
      (moved-CanSend old p.store q.store.position (p.node.child_block 1) (h same))
  where
    same : lags p latest 1 ≡ true
    same = rw (round.sent.store, round.sent.connected, round.sent.others 1 refl) at lagging

moved-HasBytes :
    (old : Buf) (p q : Program)
    → q.store ≡ (let s = p.store in record s { position = q.store.position })
    → HasBytes old p.store
    → HasBytes old q.store
moved-HasBytes old p q e h = rw e (record { file = h.file; memory = h.memory })

call-IsOk :
    (old : Buf) (p : Program) (c prev : Cluster)
    → p.store.clusters ≡ some (c, prev)
    → HasBytes old p.store
    → ((i : ℕ) → i < 2 → lags p prev.seq i ≡ true → CanSend old p.store (p.node.child_block i))
    → IsOk (send_mul_stream old p)
unfolding send_mul_stream
call-IsOk old p c prev clusters bytes h =
    then-IsOk (send_round old 0 (p, 0) >>= send_round old 1) _
      (then-IsOk (send_round old 0 (p, 0)) (send_round old 1)
        (send_round-IsOk old 0 p 0 c prev clusters bytes (h 0 (omega arith)))
        λ (q, k) e. second q k (ensured _ _ (q, k) e (send_round_lem old 0 p 0 c prev clusters)))
      λ a e. (_, refl)
  where
    second : (q : Program) (k : ℕ) → IsRound prev.seq 0 p 0 q k → IsOk (send_round old 1 (q, k))
    second q k round =
        send_round-IsOk old 1 q k c prev (ap (λ s. s.clusters) round.sent.store ∙ clusters)
          (moved-HasBytes old p q round.sent.store bytes)
          (second-CanSend old p q prev.seq 0 k round (h 1 (omega arith)))

-- SendMulStream on a program with a current cluster and a right count of children, where the block of
-- each connected child that lags is ready to be filled and each element that its scan meets in the
-- file has a proper length field: the call returns. FP is where it was, and nothing of the file or of
-- the slots has changed. For each connected child that lags, in the order of the slots, one frame was
-- sent to its address, with the info and the bytes of the block that GetNextBlockByBytes finds for it
-- in the file; this block is its latest from then on, and once its cluster has ended the child stands
-- before the first block of the next cluster instead. Nothing else was sent, and the other children's
-- blocks are as they were. It returns 0 exactly if no connected child lags.
pub send_mul_stream-returns :
    (old : Buf) (p : Program) (c prev : Cluster)
    → p.store.clusters ≡ some (c, prev)
    → Counted p.node
    → HasBytes old p.store
    → ((i : ℕ) → i < 2 → lags p prev.seq i ≡ true → CanSend old p.store (p.node.child_block i))
    → (q : Program) × (ret : ℕ) × (send_mul_stream old p ≡ ok (q, ret))
      × (Streamed prev.seq p q ret)
      × Sent old prev.seq p q
send_mul_stream-returns old p c prev clusters count bytes h =
    let ((q, ret), e) = call-IsOk old p c prev clusters bytes h in
    (
      q,
      ret,
      e,
      ensured _ _ (q, ret) e (send_mul_stream_lem old p c prev clusters count),
      ensured _ _ (q, ret) e (send_mul_stream-Sent old p c prev clusters λ i l k. (h i l k).ready),
    )
