-- ===== src/Origin/Read/Place.antt =====
-- Where FP stands while the origin reads a cluster (src/common/webm_parser.c, src/originsource/main.c).
use p2p_live_streming_system.Prelude.{
  ℕ, ◌+◌, ◌^◌, ◌<◌, ◌≡◌, refl, ap, ◌∙◌, Option, none, some, false, Bool-cases, inl, inr, ◌==◌,
  if◌then◌else◌, arith, Buf,
}
use p2p_live_streming_system.Prelude.Int.{pos, pos_part, ◌+ℤ◌, ◌-ℤ◌}
use p2p_live_streming_system.Words.{u16}
use p2p_live_streming_system.Wire.{BlockInfo}
use p2p_live_streming_system.Ebml.{cluster_header_bytes}
use p2p_live_streming_system.Block.{
  Block, max_block_bytes, cluster_end, status_init, zero_info, renew_block, shift_to_pre_block,
}
use p2p_live_streming_system.Block.Next.{Numbered, IsNumbered, next-Numbered}
use p2p_live_streming_system.Fault.{Result, ok, err, Ensures, Ensures-then, ◌>>=◌}
use p2p_live_streming_system.Store.{Cluster}
use p2p_live_streming_system.Node.Invariant.{Counted}
use p2p_live_streming_system.Program.{Program}
use p2p_live_streming_system.Program.Cache.{send_mul_stream}
use p2p_live_streming_system.Program.Progress.{Streamed, send_mul_stream_lem}
use p2p_live_streming_system.Origin.Read.{
  import_webm, seek_abs_r, seek_rlt_r, seek_for_next_block, block_read, read_block, set_latest,
  set_current_block, after_read, block_round,
}

-- The place of the next block in its cluster: behind the cluster's header, or behind the block before.
abbrev pub next_place : BlockInfo → ℕ
next_place prev = if prev.status == status_init then cluster_header_bytes else prev.pos + prev.bytes

-- The info before the first block of the cluster behind that of `info`.
abbrev pub renewed : BlockInfo → BlockInfo
renewed info = record zero_info {
  status = status_init;
  cluster_seq = u16 (info.cluster_seq + 1);
  pos = cluster_header_bytes;
}

-- A round on a cluster that starts at `start` has read the block `info`.
pub record HasRead (start : ℕ) (p : Program) (status : ℕ) (q : Program) : Type 0 where
  pub info : BlockInfo
  pub numbered : IsNumbered p.store.current_block.prev info
  pub position : q.store.position ≡ start + (info.pos + info.bytes)
  pub before : q.store.current_block.prev ≡ (if status == cluster_end then renewed info else info)
  pub latest : q.store.latest_block_seq ≡ info.seq
  pub file : q.store.file ≡ p.store.file

back : (a b c : ℕ) → pos_part (pos (a + c) +ℤ (pos b -ℤ pos c)) ≡ a + b
unfolding ◌+ℤ◌ ◌-ℤ◌
back a b c = ground arith

-- What the lines behind ReadBlock find.
record IsRead (p : Program) (q : Program) : Type 0 where
  position : q.store.position ≡ p.store.position + q.current_read_bytes
  numbered : IsNumbered p.store.current_block.prev q.store.current_block.info
  clusters : q.store.clusters ≡ p.store.clusters
  counted : Counted p.node → Counted q.node
  file : q.store.file ≡ p.store.file

read_block-IsRead :
    (old : Buf) (p : Program) → Ensures (λ (status, q). IsRead p q) (read_block p old)
unfolding read_block import_webm
read_block-IsRead old p = go _ (next-Numbered p.store.current_block max_block_bytes _)
  where
    go :
        (o : Option (ℕ × Block))
        → Numbered p.store.current_block o
        → Ensures (λ (status, q). IsRead p q) (block_read (import_webm p old max_block_bytes).1 o)
    go none h = tt
    go (some (status, b)) h = record {
      position = refl;
      numbered = h.1;
      clusters = refl;
      counted = λ c. c;
      file = refl;
    }

after_read-HasRead :
    (old : Buf) (start : ℕ) (p q : Program) (status : ℕ) (c prev : Cluster)
    → p.store.clusters ≡ some (c, prev)
    → Counted p.node
    → p.store.position ≡ start + next_place p.store.current_block.prev
    → p.store.current_block.prev.pos + p.store.current_block.prev.bytes < 2 ^ 32
    → IsRead p q
    → Ensures (λ (status, r). HasRead start p status r) (after_read old (status, q))
unfolding after_read seek_for_next_block seek_rlt_r seek_abs_r renew_block shift_to_pre_block
after_read-HasRead old start p q status c prev clusters count place fits h =
    elim (Bool-cases (status == cluster_end)) [
      | inl end ↦ rw end (record {
        info = info;
        numbered = h.numbered;
        position = arrived q.store.position h.position;
        before = rw end refl;
        latest = refl;
        file = h.file;
      })
      | inr on ↦ rw on (
          streamed on (send_mul_stream old (set_latest q)) (
            send_mul_stream_lem old (set_latest q) c prev (h.clusters ∙ clusters)
              (h.counted count)))
    ]
  where
    info : BlockInfo
    info = q.store.current_block.info

    arrived :
        (position : ℕ)
        → position ≡ p.store.position + q.current_read_bytes
        → pos_part (pos position +ℤ (pos info.bytes -ℤ pos q.current_read_bytes))
          ≡ start + (info.pos + info.bytes)
    arrived position e =
        ap (λ x. pos_part (pos x +ℤ (pos info.bytes -ℤ pos q.current_read_bytes))) e
        ∙ back p.store.position info.bytes q.current_read_bytes
        ∙ ground (arith, h.numbered, place, fits)

    streamed :
        (status == cluster_end) ≡ false
        → (x : Result (Program × ℕ))
        → Ensures (λ (t, ret). Streamed prev.seq (set_latest q) t ret) x
        → Ensures
            (λ (status, r). HasRead start p status r)
            (x >>= λ (t, ret).
              let r = seek_for_next_block t in
              ok (status, set_current_block r (shift_to_pre_block r.store.current_block)))
    streamed on (err f) s = tt
    streamed on (ok (t, ret)) s = record {
      info = info;
      numbered = h.numbered;
      position = rw (s.store, s.read_bytes) (arrived q.store.position h.position);
      before = rw (on, s.store) refl;
      latest = rw (s.store) refl;
      file = rw (s.store) h.file;
    }

-- One round of the origin's loop over a cluster, on a program with a right count of children, when FP
-- stands at the place of the next block in the cluster that starts at `start`: ReadBlock makes the
-- block that is next in the cluster, and afterwards FP stands behind that block's bytes, whatever was
-- sent to children meanwhile. LATEST_BLOCK_SEQ is the block's number, and CURRENT_BLOCK stands
-- behind it, or before the first block of the next cluster where the cluster has ended.
pub block_round-HasRead :
    (old : Buf) (start : ℕ) (p : Program) (c prev : Cluster)
    → p.store.clusters ≡ some (c, prev)
    → Counted p.node
    → p.store.position ≡ start + next_place p.store.current_block.prev
    → p.store.current_block.prev.pos + p.store.current_block.prev.bytes < 2 ^ 32
    → Ensures (λ (status, q). HasRead start p status q) (block_round old p)
unfolding block_round
block_round-HasRead old start p c prev clusters count place fits =
    Ensures-then (λ (status, q). IsRead p q) (λ (status, r). HasRead start p status r)
      (read_block p old) (after_read old) (read_block-IsRead old p)
      λ (status, q) h. after_read-HasRead old start p q status c prev clusters count place fits h
