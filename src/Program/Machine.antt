-- ===== src/Program/Machine.antt =====
-- A peer as its two threads (ReadThread and TimeThread in src/common/p2p.c): rounds of the receive loop
-- and of the timer, one after the other in any order.
use p2p_live_streming_system.Prelude.{◌≡◌, Buf}
use p2p_live_streming_system.Packet.{receive}
use p2p_live_streming_system.Fault.{Result, ok, Ensures}
use p2p_live_streming_system.Node.{Node, World}
use p2p_live_streming_system.Node.Invariant.{Counted}
use p2p_live_streming_system.Node.Timer.{time_process}
use p2p_live_streming_system.Node.Timer.Round.{ParentAnswers, time_process-Counted}
use p2p_live_streming_system.Program.{Program, with_node}
use p2p_live_streming_system.Program.Receive.{Outcome, goes_on, peer_round}
use p2p_live_streming_system.Program.Dispatch.{StaysCounted}
use p2p_live_streming_system.Program.Rounds.{Expects, peer_round-StaysCounted}

-- A round that leaves a program that goes on.
pub data Round (old : Buf) (p : Program) : Program → Type 0 where
  received :
      (w : World) (packet : Buf) (q : Program)
      → Expects p.node (receive p.node.source.ip p.node.source.port packet) packet
      → peer_round old p w packet ≡ ok (goes_on q)
      → Round old p q
  timed :
      (w : World) (m : Node)
      → ParentAnswers p.node w
      → time_process p.node w ≡ ok m
      → Round old p (with_node p m)

pub data Rounds (old : Buf) (p : Program) : Program → Type 0 where
  done : Rounds old p p
  more : (q r : Program) → Rounds old p q → Round old q r → Rounds old p r

outcome :
    (r : Result Outcome) (q : Program)
    → r ≡ ok (goes_on q)
    → Ensures StaysCounted r
    → Counted q.node
outcome r q e h = rw e at h

value : (r : Result Node) (m : Node) → r ≡ ok m → Ensures Counted r → Counted m
value r m e h = rw e at h

-- In every sequence of rounds of the receive loop and of the timer of a peer that starts with a right
-- count of children the count stays right, if an initial status arrives only at a node without a
-- parent, a departing id stands only in connected slots, a detach arrives only from a parent that is
-- connected, and the parent does not time out.
pub Rounds-Counted : (old : Buf) (p q : Program) → Rounds old p q → Counted p.node → Counted q.node
Rounds-Counted old p q done h = h
Rounds-Counted old p r (more q _ run (received w packet _ expected e)) h =
    outcome _ r e (peer_round-StaysCounted old q w packet (Rounds-Counted old p q run h) expected)
Rounds-Counted old p _ (more q _ run (timed w m answers e)) h =
    value _ m e (time_process-Counted q.node w (Rounds-Counted old p q run h) answers)
