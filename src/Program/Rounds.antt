-- ===== src/Program/Rounds.antt =====
-- The count of the children in one round of the receive loops (src/peer/main.c,
-- src/originsource/main.c).
use p2p_live_streming_system.Prelude.{
  ℕ, ◌≡◌, refl, Option, none, Option-cases, not, ◌&&◌, true, false, Bool, Bool-cases, inl, inr,
  if◌then◌else◌, Buf,
}
use p2p_live_streming_system.Packet.{Received, ignored, arp, datagram, receive, handler_data}
use p2p_live_streming_system.Fault.{ok, Ensures, Ensures-map, Ensures-then, ◌>>=◌}
use p2p_live_streming_system.Store.{Cluster}
use p2p_live_streming_system.Store.Assemble.{is_run}
use p2p_live_streming_system.Node.{Node, World, bit}
use p2p_live_streming_system.Node.Invariant.{Counted}
use p2p_live_streming_system.Program.{Program}
use p2p_live_streming_system.Program.Cache.{closed_seq, serve_child, send_round, send_mul_stream}
use p2p_live_streming_system.Program.Caught.{IsRound, send_round_lem}
use p2p_live_streming_system.Program.Receive.{
  Outcome, goes_on, ended, receive_arp, peer_dispatch, origin_dispatch, peer_frame, origin_frame,
  stream_if_playing, peer_round, os_port,
}
use p2p_live_streming_system.Program.Dispatch.{
  StaysCounted, IsExpected, peer_dispatch-StaysCounted, origin_dispatch-StaysCounted,
}

receive_arp-Counted :
    (p : Program) (packet : Buf) → Counted p.node → Counted (receive_arp p packet).node
unfolding receive_arp
receive_arp-Counted p packet h =
    elim (Bool-cases (not (is_run 6 0xff packet) && not p.is_gateway_mac_get)) [
      | inl e ↦ rw e h
      | inr e ↦ rw e h
    ]

-- What the handler of a frame relies on.
abbrev pub Expects : Node → Received → Buf → Type 0
Expects n ignored packet = Unit
Expects n arp packet = Unit
Expects n (datagram protocol data_bytes saddr source) packet =
    IsExpected n protocol (handler_data packet)

peer_frame-StaysCounted :
    (p : Program) (w : World) (packet : Buf)
    → Counted p.node
    → Expects p.node (receive p.node.source.ip p.node.source.port packet) packet
    → Ensures StaysCounted (peer_frame p w packet)
unfolding peer_frame
peer_frame-StaysCounted p w packet h = go (receive p.node.source.ip p.node.source.port packet)
  where
    go :
        (r : Received)
        → Expects p.node r packet
        → Ensures StaysCounted (elim r [
          | ignored ↦ ok (goes_on p)
          | arp ↦ ok (goes_on (receive_arp p packet))
          | datagram protocol data_bytes saddr source ↦
              peer_dispatch p w (handler_data packet) protocol data_bytes saddr source
        ])
    go ignored e = h
    go arp e = receive_arp-Counted p packet h
    go (datagram protocol data_bytes saddr source) e =
        peer_dispatch-StaysCounted p w (handler_data packet) protocol data_bytes saddr source h e

-- One round of the origin's receive loop, on a program with a right count of children: whatever the
-- frame holds, a program that goes on has a right count, if an initial status arrives only at a node
-- without a parent, a departing id stands only in connected slots, and a detach arrives only from a
-- parent that is connected.
pub origin_frame-StaysCounted :
    (p : Program) (w : World) (packet : Buf)
    → Counted p.node
    → Expects p.node (receive p.node.source.ip os_port packet) packet
    → Ensures StaysCounted (origin_frame p w packet)
unfolding origin_frame
origin_frame-StaysCounted p w packet h = go (receive p.node.source.ip os_port packet)
  where
    go :
        (r : Received)
        → Expects p.node r packet
        → Ensures StaysCounted (elim r [
          | ignored ↦ ok (goes_on p)
          | arp ↦ ok (goes_on (receive_arp p packet))
          | datagram protocol data_bytes saddr source ↦
              origin_dispatch p w (handler_data packet) protocol data_bytes saddr source
        ])
    go ignored e = h
    go arp e = receive_arp-Counted p packet h
    go (datagram protocol data_bytes saddr source) e =
        origin_dispatch-StaysCounted p w (handler_data packet) protocol data_bytes saddr source h e

-- SendMulStream without a cluster.
no_cluster :
    (old : Buf) (i : ℕ) (p : Program) (k : ℕ)
    → p.store.clusters ≡ none
    → Ensures (λ (q, m). q ≡ p) (send_round old i (p, k))
unfolding send_round
no_cluster old i p k e = elim (Bool-cases (bit p.node.connected_nodes i)) [
  | inl on ↦ rw on (go p.store.clusters e)
  | inr off ↦ rw off refl
]
  where
    go :
        (o : Option (Cluster × Cluster))
        → o ≡ none
        → Ensures (λ (q, m). q ≡ p) (closed_seq o >>= serve_child old i p k)
    go o e = rw e tt

-- The program of a round, or of the whole call, has a right count.
abbrev HasCount : Program × ℕ → Type 0
HasCount (q, k) = Counted q.node

round-Counted :
    (old : Buf) (i : ℕ) (p : Program) (k : ℕ)
    → Counted p.node
    → Ensures HasCount (send_round old i (p, k))
round-Counted old i p k h = elim (Option-cases p.store.clusters) [
  | inl e ↦
      Ensures-map (λ (q, m). q ≡ p) HasCount _ (λ (q, m) same. rw same h) (no_cluster old i p k e)
  | inr ((c, prev), e) ↦
      Ensures-map (λ (q, m). IsRound prev.seq i p k q m) HasCount _
        (λ (q, m) r. rw (r.sent.count, r.sent.connected) h) (send_round_lem old i p k c prev e)
]

mul_stream-Counted :
    (old : Buf) (p : Program) → Counted p.node → Ensures HasCount (send_mul_stream old p)
unfolding send_mul_stream
mul_stream-Counted old p h =
    Ensures-then HasCount HasCount (send_round old 0 (p, 0) >>= send_round old 1) _
      (Ensures-then HasCount HasCount (send_round old 0 (p, 0)) (send_round old 1)
        (round-Counted old 0 p 0 h) λ (q, k) e. round-Counted old 1 q k e)
      λ (q, k) e. e

-- One round of a peer's receive loop, on a program with a right count of children: whatever the frame
-- holds, a program that goes on after the dispatch and the sending of blocks has a right count, if
-- an initial status arrives only at a node without a parent, a departing id stands only in connected
-- slots, and a detach arrives only from a parent that is connected.
pub peer_round-StaysCounted :
    (old : Buf) (p : Program) (w : World) (packet : Buf)
    → Counted p.node
    → Expects p.node (receive p.node.source.ip p.node.source.port packet) packet
    → Ensures StaysCounted (peer_round old p w packet)
unfolding peer_round
peer_round-StaysCounted old p w packet h expected =
    Ensures-then StaysCounted StaysCounted (peer_frame p w packet) (stream_if_playing old)
      (peer_frame-StaysCounted p w packet h expected) go
  where
    go : (o : Outcome) → StaysCounted o → Ensures StaysCounted (stream_if_playing old o)
    go (ended s) e = tt
    go (goes_on q) e = playing q.node.is_begin_playing
      where
        playing :
            (b : Bool)
            → Ensures StaysCounted (
                if b
                then (send_mul_stream old q >>= λ (r, ret). ok (goes_on r))
                else ok (goes_on q))
        playing true =
            Ensures-then HasCount StaysCounted (send_mul_stream old q) _
              (mul_stream-Counted old q e) λ (r, ret) f. f
        playing false = e
