-- ===== src/Program/Accept.antt =====
-- What a peer does with a block that it gets (src/peer/main.c, src/common/webm_parser.c).
use p2p_live_streming_system.Prelude.{
  ℕ, zero, suc, ◌+◌, ◌^◌, ◌≤◌, ◌<◌, ◌≡◌, refl, sym, ap, ◌∙◌, List, ◌++◌, Bool, true, false, not,
  inl, inr, Bool-cases, ◌&&◌, ◌==◌, if◌then◌else◌, arith, length, at, shift, Buf,
}
use p2p_live_streming_system.Words.{htons, htonl}
use p2p_live_streming_system.Wire.{BlockInfo, copy_bytes_to_block_info}
use p2p_live_streming_system.Packet.{Endpoint, receive, handler_data, ignored, arp, datagram}
use p2p_live_streming_system.Block.{max_block_bytes, is_old_block_seq}
use p2p_live_streming_system.Fault.{Result, ok, err, ◌>>=◌}
use p2p_live_streming_system.Store.{Cluster, Store}
use p2p_live_streming_system.Store.Assemble.{Assembled, running, finished, is_run, assemble_block}
use p2p_live_streming_system.Store.Recording.{Recording, Represents, Takes, add_block}
use p2p_live_streming_system.Store.Stream.{IsBlock, Steps, assemble_block-Steps}
use p2p_live_streming_system.Node.{World}
use p2p_live_streming_system.Node.Send.{block_proto}
use p2p_live_streming_system.Program.{Program, with_store}
use p2p_live_streming_system.Program.Frame.{Delivered}
use p2p_live_streming_system.Program.Receive.{
  goes_on, ended, select, handle_block, peer_dispatch, peer_frame, receive_arp,
}

run_byte : (n b : ℕ) (p : Buf) (i : ℕ) → is_run n b p ≡ true → i < n → p i ≡ b
run_byte zero b p i h l = absurd (omega arith)
run_byte (suc n) b p zero h l = ground arith
run_byte (suc n) b p (suc i) h l =
    ap p (omega arith) ∙ run_byte n b (shift p 1) i (ground arith) (omega arith)

-- The infos of the header packet and of the end packet.
run_pos : (p : Buf) → is_run 18 0 p ≡ true → (copy_bytes_to_block_info p).pos ≡ 0
unfolding copy_bytes_to_block_info htonl
run_pos p h =
    rw
      (
        run_byte 18 0 p 0 h (omega arith),
        run_byte 18 0 p 1 h (omega arith),
        run_byte 18 0 p 2 h (omega arith),
        run_byte 18 0 p 3 h (omega arith),
      )
      refl

run_bytes : (p : Buf) → is_run 18 0xff p ≡ true → (copy_bytes_to_block_info p).bytes ≡ 0xffff
unfolding copy_bytes_to_block_info htons
run_bytes p h = rw (run_byte 18 0xff p 8 h (omega arith), run_byte 18 0xff p 9 h (omega arith)) refl

info-IsBlock :
    (p : Buf) (info : BlockInfo)
    → copy_bytes_to_block_info p ≡ info
    → 0 < info.pos
    → info.bytes ≤ max_block_bytes
    → IsBlock p
info-IsBlock p info e placed small = (start, final)
  where
    start : is_run 18 0 p ≡ false
    start = elim (Bool-cases (is_run 18 0 p)) [
      | inl r ↦ absurd (omega (arith, placed, sym (ap (λ i. i.pos) e) ∙ run_pos p r))
      | inr r ↦ r
    ]

    final : is_run 18 0xff p ≡ false
    final = elim (Bool-cases (is_run 18 0xff p)) [
      | inl r ↦ absurd (omega (arith, small, sym (ap (λ i. i.bytes) e) ∙ run_bytes p r))
      | inr r ↦ r
    ]

-- What the peer does with an accepted frame.
peer_frame-block :
    (q : Program) (w : World) (packet : Buf) (bytes saddr source : ℕ)
    → receive q.node.source.ip q.node.source.port packet ≡ datagram block_proto bytes saddr source
    → peer_frame q w packet ≡ handle_block q (handler_data packet) bytes
unfolding peer_frame peer_dispatch select
peer_frame-block q w packet bytes saddr source e =
    ap
      (λ r. elim r [
        | ignored ↦ ok (goes_on q)
        | arp ↦ ok (goes_on (receive_arp q packet))
        | datagram protocol data_bytes saddr source ↦
            peer_dispatch q w (handler_data packet) protocol data_bytes saddr source
      ])
      e

Steps-Taken :
    (r : Recording) (new : Bool) (info : BlockInfo) (bytes : List ℕ) (q : Program)
    (x : Result Assembled)
    → Steps r new info (ok bytes) x
    → (t : Store) × ((x >>= λ assembled. elim assembled [
      | running s ↦ ok (goes_on (with_store q s))
      | finished s ↦ ok (ended s)
    ])
        ≡ ok (goes_on (with_store q t)))
      × Takes (add_block new bytes r) info t
Steps-Taken r new info bytes q (ok (running s)) h = (s, refl, h)
Steps-Taken r new info bytes q (ok (finished s)) h = absurd h
Steps-Taken r new info bytes q (err f) h = absurd h

pub peer_frame-Delivered :
    (info : BlockInfo) (chunk : List ℕ) (src dst : Endpoint) (frame rest : List ℕ) (q : Program)
    (w : World) (r : Recording) (c prev : Cluster) (size : List ℕ)
    → Delivered info chunk src dst frame
    → 0 < info.pos
    → info.bytes ≤ max_block_bytes
    → 1 < info.seq
    → q.node.source.ip ≡ dst.ip
    → q.node.source.port ≡ dst.port
    → Represents r q.store c prev size
    → length r.payload < 2 ^ 56
    → is_old_block_seq prev.seq q.store.latest_block_seq info ≡ false
    → (t : Store) × (peer_frame q w (at (frame ++ rest)) ≡ ok (goes_on (with_store q t)))
      × Takes
          (add_block (not (q.store.current_block.prev.cluster_seq == info.cluster_seq)) chunk r)
          info
          t
peer_frame-Delivered info chunk src dst frame rest q w r c prev size h placed small later ip port
      rep few new =
    let (t, e, taken) =
      Steps-Taken r fresh info chunk q (assemble_block q.store recv_data (info.bytes + 18)) step in
    (
      t,
      peer_frame-block q w (at (frame ++ rest)) (info.bytes + 18) src.ip (htons src.port) mine ∙ e,
      taken,
    )
  where
    recv_data : Buf
    recv_data = handler_data (at (frame ++ rest))

    fresh : Bool
    fresh = not (q.store.current_block.prev.cluster_seq == info.cluster_seq)

    mine :
        receive q.node.source.ip q.node.source.port (at (frame ++ rest))
        ≡ datagram block_proto (info.bytes + 18) src.ip (htons src.port)
    mine = h.accepted rest q.node.source.ip q.node.source.port ∙ matched
      where
        same : (dst.ip == q.node.source.ip && dst.port == q.node.source.port) ≡ true
        same = ground (arith, ip, port)

        matched :
            (if dst.ip == q.node.source.ip && dst.port == q.node.source.port
              then datagram block_proto (info.bytes + 18) src.ip (htons src.port)
              else ignored)
            ≡ datagram block_proto (info.bytes + 18) src.ip (htons src.port)
        matched = rw same refl

    number : (info.seq == 1) ≡ false
    number = ground (arith, later)

    step : Steps r fresh info (ok chunk) (assemble_block q.store recv_data (info.bytes + 18))
    step =
        (rw (h.info rest, new, number, h.bytes rest) at
          (assemble_block-Steps r q.store c prev size recv_data (info.bytes + 18) rep few
            (info-IsBlock recv_data info (h.info rest) placed small))).0
