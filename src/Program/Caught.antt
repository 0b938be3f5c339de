-- ===== src/Program/Caught.antt =====
-- The children that SendMulStream serves, and those that have caught up.
use p2p_live_streming_system.Prelude.{
  ℕ, ◌+◌, ◌≡◌, ◌≢◌, ◌⊎◌, refl, ap, Option, none, some, Bool, true, false, not, ◌&&◌, ◌==◌,
  if◌then◌else◌, arith, Buf, List, ◌++◌, ◌∷◌, read, Bool-cases, inl, inr,
}
use p2p_live_streming_system.Prelude.Int.{pos}
use p2p_live_streming_system.Words.{u16, u32}
use p2p_live_streming_system.Wire.{BlockInfo, copy_block_info_to_bytes}
use p2p_live_streming_system.Block.{
  Block, is_old_block_seq, max_block_bytes, cluster_end, status_init, renew_block,
  shift_to_pre_block,
}
use p2p_live_streming_system.Block.Next.{Numbered, IsNumbered, next-Numbered}
use p2p_live_streming_system.Block.Status.{AllAssigned, next-AllAssigned}
use p2p_live_streming_system.Fault.{Result, ok, err, Ensures, ◌>>=◌}
use p2p_live_streming_system.Store.{Cluster}
use p2p_live_streming_system.Node.{Node, bit, update}
use p2p_live_streming_system.Node.Send.{send_buffer, block_proto}
use p2p_live_streming_system.Program.{Program}
use p2p_live_streming_system.Program.Cache.{
  send_found, send_cache_block, block_buffer, set_child, next_child, closed_seq, serve_child,
  send_round, seek_r, searched,
}

-- The child in a slot is connected, and the block that it got last is old for the cluster with the
-- number `latest`.
abbrev pub is_old : Program → ℕ → ℕ → Bool
is_old p latest i = is_old_block_seq latest p.store.latest_block_seq (p.node.child_block i).prev

abbrev pub lags : Program → ℕ → ℕ → Bool
lags p latest i = bit p.node.connected_nodes i && is_old p latest i

-- A program that may have sent, read from the file, and changed the block of the child in slot `i`.
pub record SentTo (i : ℕ) (p q : Program) : Type 0 where
  pub store : q.store ≡ (let s = p.store in record s { position = q.store.position })
  pub count : q.node.current_child_num ≡ p.node.current_child_num
  pub connected : q.node.connected_nodes ≡ p.node.connected_nodes
  pub read_bytes : q.current_read_bytes ≡ p.current_read_bytes
  pub others : (j : ℕ) → (i == j) ≡ false → q.node.child_block j ≡ p.node.child_block j

-- SendPacket changes nothing but the frames.
send_buffer-child_block :
    (n : Node) (content : List ℕ) (k dst_id : ℕ)
    → Ensures
        (λ m.
          (m.current_child_num ≡ n.current_child_num)
          × (m.connected_nodes ≡ n.connected_nodes)
          × (m.child_block ≡ n.child_block))
        (send_buffer n content (pos k) dst_id)
unfolding send_buffer p2p_live_streming_system.Node.send_packet
send_buffer-child_block n content k dst_id = ground arith

-- What a child has next: the following block of the cluster, or the start of the next cluster.
abbrev pub Advanced : BlockInfo → BlockInfo → Type 0
Advanced before after =
    ((after.cluster_seq ≡ before.cluster_seq)
      × (after.seq ≡ (if before.status == status_init then 1 else u32 (before.seq + 1)))
      × (after.status ≢ status_init))
    ⊎ ((after.cluster_seq ≡ u16 (before.cluster_seq + 1)) × (after.seq ≡ 0))

next_child-Advanced :
    (before : BlockInfo) (status : ℕ) (next : Block)
    → IsNumbered before next.info
    → next.info.status ≢ status_init
    → Advanced before (next_child status next).prev
unfolding renew_block shift_to_pre_block
next_child-Advanced before status next h k = elim (Bool-cases (status == cluster_end)) [
  | inl e ↦ rw e (inr (rw (h.0), refl))
  | inr e ↦ rw e (inl (h.0, h.1, k))
]

-- SendCacheBlock for the child in slot `i`, and the block that SendMulStream leaves the child.
abbrev Served : ℕ → Program → ℕ × Block × Program → Type 0
Served i p (status, next, q) =
    SentTo i p (set_child q i (next_child status next))
    × Advanced (p.node.child_block i).prev (next_child status next).prev

send_found-Served :
    (i : ℕ) (p : Program) (offset : ℕ) (buf : Buf) (o : Option (ℕ × Block))
    → Numbered (p.node.child_block i) o
    → AllAssigned o
    → Ensures (Served i p) (send_found p offset buf i o)
unfolding send_found update
send_found-Served i p offset buf none h k = tt
send_found-Served i p offset buf (some (status, next)) h k =
    go (send_buffer p.node content (pos (u16 (next.info.bytes + 19))) i)
      (send_buffer-child_block p.node content (u16 (next.info.bytes + 19)) i)
  where
    content : List ℕ
    content = block_proto ∷ (copy_block_info_to_bytes next.info ++ read max_block_bytes buf)

    go :
        (r : Result Node)
        → Ensures
            (λ m.
              (m.current_child_num ≡ p.node.current_child_num)
              × (m.connected_nodes ≡ p.node.connected_nodes)
              × (m.child_block ≡ p.node.child_block))
            r
        → Ensures (Served i p) (
            r >>= λ n.
            ok (status, next, seek_r (record p { node = n }) offset (searched p.store offset)))
    go (err f) e = tt
    go (ok m) e = (
      record {
        store = refl;
        count = e.0;
        connected = e.1;
        read_bytes = refl;
        others = λ j apart. rw apart (ap (λ f. f j) (e.2));
      },
      next_child-Advanced (p.node.child_block i).prev status next h.1 k,
    )

-- One round of SendMulStream, when `latest` is the number of the latest cluster that is closed.
pub record IsRound (latest i : ℕ) (p : Program) (count : ℕ) (q : Program) (k : ℕ) : Type 0 where
  pub sent : SentTo i p q
  pub counted :
      k ≡ count + (if bit p.node.connected_nodes i && not (is_old p latest i) then 1 else 0)
  pub served :
      lags p latest i ≡ true → Advanced (p.node.child_block i).prev (q.node.child_block i).prev
  pub idle : lags p latest i ≡ false → q ≡ p

abbrev pub Rounded : ℕ → ℕ → Program → ℕ → Result (Program × ℕ) → Type 0
Rounded latest i p count r = Ensures (λ (q, k). IsRound latest i p count q k) r

SentTo-refl : (i : ℕ) (p : Program) → SentTo i p p
SentTo-refl i p = record {
  store = refl;
  count = refl;
  connected = refl;
  read_bytes = refl;
  others = λ j e. refl;
}

serve_child_lem :
    (old : Buf) (i : ℕ) (p : Program) (count latest : ℕ)
    → bit p.node.connected_nodes i ≡ true
    → Rounded latest i p count (serve_child old i p count latest)
unfolding serve_child send_cache_block update
serve_child_lem old i p count latest on = elim (Bool-cases (is_old p latest i)) [
  | inr new ↦ rw new (record {
    sent = SentTo-refl i p;
    counted = rw (on, new) refl;
    served = λ e. absurd (ground arith);
    idle = λ e. refl;
  })
  | inl lagging ↦ rw lagging (
      serve lagging _ (
        send_found-Served i p _ buf _ (next-Numbered (p.node.child_block i) max_block_bytes buf)
          (next-AllAssigned (p.node.child_block i) max_block_bytes buf)))
]
  where
    buf : Buf
    buf = block_buffer p.store old (p.node.child_block i)

    same : (i == i) ≡ true
    same = ground arith

    serve :
        is_old p latest i ≡ true
        → (r : Result (ℕ × Block × Program)) → Ensures (Served i p) r
        → Rounded latest i p count
            (r >>= λ (status, next, q). ok (set_child q i (next_child status next), count))
    serve lagging (err f) e = tt
    serve lagging (ok (status, next, q)) e = record {
      sent = e.0;
      counted = rw (on, lagging) (omega arith);
      served = λ k. rw same e.1;
      idle = λ k. absurd (ground arith);
    }

pub send_round_lem :
    (old : Buf) (i : ℕ) (p : Program) (count : ℕ) (c prev : Cluster)
    → p.store.clusters ≡ some (c, prev)
    → Rounded prev.seq i p count (send_round old i (p, count))
unfolding send_round
send_round_lem old i p count c prev h = elim (Bool-cases (bit p.node.connected_nodes i)) [
  | inr off ↦ rw off (record {
    sent = SentTo-refl i p;
    counted = rw off (omega arith);
    served = λ e. absurd (ground arith);
    idle = λ e. refl;
  })
  | inl on ↦ rw on (closed on p.store.clusters h)
]
  where
    closed :
        bit p.node.connected_nodes i ≡ true
        → (o : Option (Cluster × Cluster)) → o ≡ some (c, prev)
        → Rounded prev.seq i p count (closed_seq o >>= serve_child old i p count)
    closed on o e = rw e (serve_child_lem old i p count prev.seq on)
