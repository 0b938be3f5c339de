-- ===== src/Program/Progress.antt =====
-- A call of SendMulStream for all children (src/common/p2p.c).
use p2p_live_streming_system.Prelude.{
  ℕ, zero, suc, ◌+◌, ◌<◌, ◌≡◌, ◌↔◌, refl, ap, ◌∙◌, some, Bool, true, false, not, ◌&&◌,
  if◌then◌else◌, arith, Buf,
}
use p2p_live_streming_system.Prelude.Int.{pos}
use native.Mathlib.Nat.{add-zero}
use p2p_live_streming_system.Fault.{Result, ok, err, Ensures, ◌>>=◌}
use p2p_live_streming_system.Store.{Cluster, Store}
use p2p_live_streming_system.Node.{bit}
use p2p_live_streming_system.Node.Count.{children}
use p2p_live_streming_system.Node.Frame.{SameSlots}
use p2p_live_streming_system.Node.Invariant.{Counted}
use p2p_live_streming_system.Program.{Program}
use p2p_live_streming_system.Program.Cache.{stream_ret, send_round, send_mul_stream, seek_r}
use p2p_live_streming_system.Program.Caught.{
  is_old, lags, IsRound, Rounded, Advanced, send_round_lem,
}

-- What a call leaves when `latest` is the number of the latest closed cluster.
pub record Streamed (latest : ℕ) (p q : Program) (ret : ℕ) : Type 0 where
  pub store : q.store ≡ p.store
  pub fpos_r : q.fpos_r ≡ p.store.position
  pub read_bytes : q.current_read_bytes ≡ p.current_read_bytes
  pub slots : SameSlots p.node q.node
  pub served :
      (i : ℕ)
      → i < 2
      → lags p latest i ≡ true
      → Advanced (p.node.child_block i).prev (q.node.child_block i).prev
  pub kept : (i : ℕ) → i < 2 → lags p latest i ≡ false → q.node.child_block i ≡ p.node.child_block i
  pub idle : (ret ≡ 0) ↔ ((lags p latest 0 ≡ false) × (lags p latest 1 ≡ false))
  pub quiet : ret ≡ 0 → q.node ≡ p.node

-- The children that are connected and have caught up are all children exactly if none lags.
all_counted :
    (connected k : ℕ) (old0 old1 : Bool)
    → k
      ≡ 0
        + (if bit connected 0 && not old0 then 1 else 0)
        + (if bit connected 1 && not old1 then 1 else 0)
    → (stream_ret k (pos (children connected)) ≡ 0)
      ↔ (((bit connected 0 && old0) ≡ false) × ((bit connected 1 && old1) ≡ false))
all_counted connected k old0 old1 e = rw e (ground arith)

-- The two rounds.
module _ (latest : ℕ) (p q r : Program) (k m : ℕ) (first : IsRound latest 0 p 0 q k)
    (second : IsRound latest 1 q k r m) where
  other : q.node.child_block 1 ≡ p.node.child_block 1
  other = first.sent.others 1 refl

  same_old : is_old q latest 1 ≡ is_old p latest 1
  same_old = rw (other, first.sent.store) refl

  same_lags : lags q latest 1 ≡ lags p latest 1
  same_lags = rw (same_old, first.sent.connected) refl

  IsRound-Streamed :
      Counted p.node
      → Streamed latest p (seek_r r p.store.position 0) (stream_ret m r.node.current_child_num)
  IsRound-Streamed h = record {
    store =
        ap at_offset second.sent.store
        ∙ ap at_offset first.sent.store
        ∙ ap (λ x. let s = p.store in record s { position = x }) (add-zero p.store.position);
    fpos_r = refl;
    read_bytes = second.sent.read_bytes ∙ first.sent.read_bytes;
    slots = record { count = count; connected = connected };
    served = served;
    kept = kept;
    idle = all;
    quiet = λ e.
        let lag = all.0 e in
        ap (λ t. t.node) (second.idle (same_lags ∙ lag.1)) ∙ ap (λ t. t.node) (first.idle lag.0);
  }
    where
      count : r.node.current_child_num ≡ p.node.current_child_num
      count = second.sent.count ∙ first.sent.count

      connected : r.node.connected_nodes ≡ p.node.connected_nodes
      connected = second.sent.connected ∙ first.sent.connected

      at_offset : Store → Store
      at_offset s = record s { position = p.store.position + 0 }

      served :
          (i : ℕ)
          → i < 2
          → lags p latest i ≡ true
          → Advanced (p.node.child_block i).prev (r.node.child_block i).prev
      served zero small e = rw (second.sent.others 0 refl) (first.served e)
      served (suc zero) small e = rw⁻¹ other (second.served (same_lags ∙ e))
      served (suc (suc i)) small e = absurd (omega arith)

      kept : (i : ℕ) → i < 2 → lags p latest i ≡ false → r.node.child_block i ≡ p.node.child_block i
      kept zero small e = second.sent.others 0 refl ∙ ap (λ t. t.node.child_block 0) (first.idle e)
      kept (suc zero) small e = ap (λ t. t.node.child_block 1) (second.idle (same_lags ∙ e)) ∙ other
      kept (suc (suc i)) small e = absurd (omega arith)

      all :
          (stream_ret m r.node.current_child_num ≡ 0)
          ↔ ((lags p latest 0 ≡ false) × (lags p latest 1 ≡ false))
      all =
          rw (count, h.count)
            (all_counted p.node.connected_nodes m (is_old p latest 0) (is_old p latest 1)
              (rw (same_old, first.sent.connected, first.counted) at (second.counted)))

-- SendMulStream on a program with a right count of children and a cluster. It leaves the file and its
-- position as they were. Each connected child whose latest block is old moves on, to the following
-- block of its cluster or to the start of the next cluster; every other child stays where it is. It
-- returns 0 exactly if no connected child's latest block is old, and has sent nothing then.
pub send_mul_stream_lem :
    (old : Buf) (p : Program) (c prev : Cluster)
    → p.store.clusters ≡ some (c, prev)
    → Counted p.node
    → Ensures (λ (q, ret). Streamed prev.seq p q ret) (send_mul_stream old p)
unfolding send_mul_stream
send_mul_stream_lem old p c prev h count =
    first (send_round old 0 (p, 0)) (send_round_lem old 0 p 0 c prev h)
  where
    finish : Program × ℕ → Result (Program × ℕ)
    finish (r, m) = ok (seek_r r p.store.position 0, stream_ret m r.node.current_child_num)

    second :
        (q : Program) (k : ℕ)
        → IsRound prev.seq 0 p 0 q k
        → (x : Result (Program × ℕ)) → Rounded prev.seq 1 q k x
        → Ensures (λ (r, ret). Streamed prev.seq p r ret) (x >>= finish)
    second q k a (err f) b = tt
    second q k a (ok (r, m)) b = IsRound-Streamed prev.seq p q r k m a b count

    first :
        (x : Result (Program × ℕ))
        → Rounded prev.seq 0 p 0 x
        → Ensures (λ (r, ret). Streamed prev.seq p r ret) (x >>= send_round old 1 >>= finish)
    first (err f) a = tt
    first (ok (q, k)) a =
        second q k a (send_round old 1 (q, k))
          (send_round_lem old 1 q k c prev (ap (λ s. s.clusters) a.sent.store ∙ h))
