-- ===== src/Program/Gets.antt =====
-- The frames that SendMulStream sends, and the blocks that it leaves the children (src/common/p2p.c).
use p2p_live_streming_system.Prelude.{
  ℕ, zero, suc, ◌+◌, ◌<◌, ◌≡◌, refl, sym, ap, ◌∙◌, List, [], ◌∷◌, ◌++◌, Option, none, some, true,
  false, Bool-cases, inl, inr, ◌==◌, if◌then◌else◌, arith, Buf,
}
use mathlib.Core.List.{append_assoc, append-nil}
use p2p_live_streming_system.Words.{u16}
use p2p_live_streming_system.Wire.{BlockInfo}
use p2p_live_streming_system.Packet.{Endpoint, packet_generate}
use p2p_live_streming_system.Block.{
  Block, get_next_block_by_bytes, max_block_bytes, cluster_end, status_init, zero_info, renew_block,
  shift_to_pre_block,
}
use p2p_live_streming_system.Ebml.{cluster_header_bytes}
use p2p_live_streming_system.Block.Bounds.{AllFits, IsReady, next-AllFits}
use p2p_live_streming_system.Fault.{Result, ok, err, Ensures, ◌>>=◌}
use p2p_live_streming_system.Store.{Cluster}
use p2p_live_streming_system.Store.Seek.{cal_offset, cluster_offset, search_webm}
use p2p_live_streming_system.Node.{bit, update, send_packet}
use p2p_live_streming_system.Node.Send.{block_proto}
use p2p_live_streming_system.Program.{Program}
use p2p_live_streming_system.Program.Cache.{
  send_cache_block, send_found, block_buffer, set_child, next_child, closed_seq, serve_child,
  send_round, send_mul_stream, seek_r, stream_ret,
}
use p2p_live_streming_system.Program.Frame.{block_payload, send_buffer-block}
use p2p_live_streming_system.Program.Caught.{is_old, lags, IsRound, send_round_lem}

-- What GetNextBlockByBytes finds in the file for the child in slot `i`.
abbrev pub found : Buf → Program → ℕ → Option (ℕ × Block)
found old p i =
    let b = p.node.child_block i in
    get_next_block_by_bytes b max_block_bytes (block_buffer p.store old b)

-- The frame with it: the block's info and its bytes.
abbrev pub frame_with : Endpoint → Endpoint → Buf → Option (ℕ × Block) → List (List ℕ)
frame_with source dst buf none = []
frame_with source dst buf (some (status, next)) =
    packet_generate source dst (block_proto ∷ block_payload next.info buf) ∷ []

-- The frames for slot `i`: one for a connected child that lags, none for another.
abbrev pub frames : Buf → Program → ℕ → ℕ → List (List ℕ)
frames old p latest i =
    if lags p latest i
    then frame_with p.node.source (p.node.dst i) (block_buffer p.store old (p.node.child_block i))
        (found old p i)
    else []

-- The block that a child got last: the one that was found, and the start of the next cluster once the
-- cluster has ended.
abbrev pub Got : Option (ℕ × Block) → BlockInfo → Type 0
Got none after = ⊥
Got (some (status, next)) after = after ≡ (
    if status == cluster_end
    then record zero_info {
      status = status_init;
      cluster_seq = u16 (next.info.cluster_seq + 1);
      pos = cluster_header_bytes;
    }
    else next.info)

next_child-Got :
    (status : ℕ) (next : Block) → Got (some (status, next)) (next_child status next).prev
unfolding renew_block shift_to_pre_block
next_child-Got status next = elim (Bool-cases (status == cluster_end)) [
  | inl e ↦ rw e refl
  | inr e ↦ rw e refl
]

-- One round.
record Turn (old : Buf) (p : Program) (latest i : ℕ) (q : Program) : Type 0 where
  source : q.node.source ≡ p.node.source
  dst : q.node.dst ≡ p.node.dst
  sent : q.node.sent ≡ p.node.sent ++ frames old p latest i
  got : lags p latest i ≡ true → Got (found old p i) (q.node.child_block i).prev

idle-Turn :
    (old : Buf) (p : Program) (latest i : ℕ) → lags p latest i ≡ false → Turn old p latest i p
idle-Turn old p latest i e = record {
  source = refl;
  dst = refl;
  sent = rw e (sym (append-nil p.node.sent));
  got = λ k. absurd (ground (arith, e, k));
}

-- SendCacheBlock for a child that lags.
served-Turn :
    (old : Buf) (i : ℕ) (p : Program) (count latest : ℕ)
    → bit p.node.connected_nodes i ≡ true
    → is_old p latest i ≡ true
    → (o : Option (ℕ × Block)) → found old p i ≡ o
    → AllFits o
    → Ensures {A = Program × ℕ}
        (λ (q, k). Turn old p latest i q)
        (send_found p
            (cal_offset p.store old (p.node.child_block i).prev)
            (block_buffer p.store old (p.node.child_block i))
            i
            o
          >>= λ (status, next, q). ok (set_child q i (next_child status next), count))
unfolding send_found send_packet update
served-Turn old i p count latest on lagging none e fits = tt
served-Turn old i p count latest on lagging (some (status, next)) e fits =
    rw
      (send_buffer-block p.node next.info (block_buffer p.store old (p.node.child_block i)) i
        fits.1)
      (record {
        source = refl;
        dst = refl;
        sent = rw (on, lagging, e) refl;
        got = λ k. rw (e, same) (next_child-Got status next);
      })
  where
    same : (i == i) ≡ true
    same = ground arith

serve_child-Turn :
    (old : Buf) (i : ℕ) (p : Program) (count latest : ℕ)
    → bit p.node.connected_nodes i ≡ true
    → (lags p latest i ≡ true → IsReady (p.node.child_block i))
    → Ensures (λ (q, k). Turn old p latest i q) (serve_child old i p count latest)
unfolding serve_child send_cache_block
serve_child-Turn old i p count latest on ready = elim (Bool-cases (is_old p latest i)) [
  | inr new ↦ rw new (idle-Turn old p latest i (rw (on, new) refl))
  | inl lagging ↦ rw lagging (
      served-Turn old i p count latest on lagging (found old p i) refl (
        next-AllFits (p.node.child_block i) (block_buffer p.store old (p.node.child_block i))
          (ready (rw (on, lagging) refl))))
]

send_round-Turn :
    (old : Buf) (i : ℕ) (p : Program) (count : ℕ) (c prev : Cluster)
    → p.store.clusters ≡ some (c, prev)
    → (lags p prev.seq i ≡ true → IsReady (p.node.child_block i))
    → Ensures (λ (q, k). Turn old p prev.seq i q) (send_round old i (p, count))
unfolding send_round
send_round-Turn old i p count c prev clusters ready =
    elim (Bool-cases (bit p.node.connected_nodes i)) [
      | inr off ↦ rw off (idle-Turn old p prev.seq i (rw off refl))
      | inl on ↦ rw on (closed on p.store.clusters clusters)
    ]
  where
    closed :
        bit p.node.connected_nodes i ≡ true
        → (o : Option (Cluster × Cluster)) → o ≡ some (c, prev)
        → Ensures (λ (q, k). Turn old p prev.seq i q) (closed_seq o >>= serve_child old i p count)
    closed on o e = rw e (serve_child-Turn old i p count prev.seq on ready)

-- What a call of SendMulStream sends and leaves the children, when `latest` is the number of the latest
-- closed cluster.
pub record Sent (old : Buf) (latest : ℕ) (p q : Program) : Type 0 where
  pub sent : q.node.sent ≡ p.node.sent ++ (frames old p latest 0 ++ frames old p latest 1)
  pub got :
      (i : ℕ) → i < 2 → lags p latest i ≡ true → Got (found old p i) (q.node.child_block i).prev

-- The program after the first round, for the second: only FP and the first child are not as before.
module _ (old : Buf) (p q : Program) (latest count k : ℕ) (round : IsRound latest 0 p count q k)
    (turn : Turn old p latest 0 q) where
  lags_same : lags q latest 1 ≡ lags p latest 1
  lags_same = rw (round.sent.store, round.sent.connected, round.sent.others 1 refl) refl

  found_same : found old q 1 ≡ found old p 1
  unfolding cal_offset cluster_offset search_webm
  found_same = rw (round.sent.store, round.sent.others 1 refl) refl

  frames_same : frames old q latest 1 ≡ frames old p latest 1
  unfolding cal_offset cluster_offset search_webm
  frames_same =
      rw (round.sent.store, round.sent.connected, round.sent.others 1 refl, turn.source, turn.dst)
        refl

pub send_mul_stream-Sent :
    (old : Buf) (p : Program) (c prev : Cluster)
    → p.store.clusters ≡ some (c, prev)
    → ((i : ℕ) → i < 2 → lags p prev.seq i ≡ true → IsReady (p.node.child_block i))
    → Ensures (λ (q, ret). Sent old prev.seq p q) (send_mul_stream old p)
unfolding send_mul_stream
send_mul_stream-Sent old p c prev clusters ready =
    first (send_round old 0 (p, 0)) (send_round_lem old 0 p 0 c prev clusters)
      (send_round-Turn old 0 p 0 c prev clusters (ready 0 (omega arith)))
  where
    finish : Program × ℕ → Result (Program × ℕ)
    finish (r, m) = ok (seek_r r p.store.position 0, stream_ret m r.node.current_child_num)

    second :
        (q : Program) (k : ℕ)
        → IsRound prev.seq 0 p 0 q k
        → Turn old p prev.seq 0 q
        → (x : Result (Program × ℕ)) → Ensures (λ (r, m). IsRound prev.seq 1 q k r m) x
        → Ensures (λ (r, m). Turn old q prev.seq 1 r) x
        → Ensures (λ (r, ret). Sent old prev.seq p r) (x >>= finish)
    second q k round turn (err f) a b = tt
    second q k round turn (ok (r, m)) a b = record {
      sent =
          b.sent
          ∙ ap (λ l. q.node.sent ++ l) (frames_same old p q prev.seq 0 k round turn)
          ∙ ap (λ l. l ++ frames old p prev.seq 1) turn.sent
          ∙ append_assoc p.node.sent (frames old p prev.seq 0) (frames old p prev.seq 1);
      got = got;
    }
      where
        got :
            (i : ℕ)
            → i < 2
            → lags p prev.seq i ≡ true
            → Got (found old p i) (r.node.child_block i).prev
        got zero small e = rw (a.sent.others 0 refl) (turn.got e)
        got (suc zero) small e =
            rw⁻¹ (found_same old p q prev.seq 0 k round turn)
              (b.got (lags_same old p q prev.seq 0 k round turn ∙ e))
        got (suc (suc i)) small e = absurd (omega arith)

    first :
        (x : Result (Program × ℕ))
        → Ensures (λ (q, k). IsRound prev.seq 0 p 0 q k) x
        → Ensures (λ (q, k). Turn old p prev.seq 0 q) x
        → Ensures (λ (r, ret). Sent old prev.seq p r) (x >>= send_round old 1 >>= finish)
    first (err f) a b = tt
    first (ok (q, k)) a b =
        second q k a b (send_round old 1 (q, k)) (send_round_lem old 1 q k c prev still)
          (send_round-Turn old 1 q k c prev still ready1)
      where
        still : q.store.clusters ≡ some (c, prev)
        still = ap (λ s. s.clusters) a.sent.store ∙ clusters

        ready1 : lags q prev.seq 1 ≡ true → IsReady (q.node.child_block 1)
        ready1 e =
            rw (a.sent.others 1 refl)
              (ready 1 (omega arith) (sym (lags_same old p q prev.seq 0 k a b) ∙ e))
