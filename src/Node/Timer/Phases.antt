-- ===== src/Node/Timer/Phases.antt =====
-- The slots and the stamps of the neighbours in the phases of the timer other than the timeouts
-- (TimeProcess in src/common/p2p.c).
use p2p_live_streming_system.Prelude.{
  ℕ, zero, suc, ◌+◌, ◌≡◌, refl, ◌∙◌, List, [], ◌∷◌, Bool, true, false, if◌then◌else◌, arith,
}
use p2p_live_streming_system.Wire.{NodeStatus}
use p2p_live_streming_system.Node.{Node, World, bit, parent_id, renew_dst_ip_and_mac, send_packet}
use p2p_live_streming_system.Node.Send.{send_setup, send_my_id, send_depart}
use p2p_live_streming_system.Node.Frame.{SameSlots, SameSlots-trans}
use p2p_live_streming_system.Node.Invariant.{Counted}
use p2p_live_streming_system.Node.Timer.{
  send_keepalives, keepalive_phase, setup_phase, send_req_lists, list_phase, cal_played_buffer,
  cache_phase, depart_phase, buffer_phases,
}

-- What the phases before the timeouts, and those behind them, leave alone.
pub record Alike (n m : Node) : Type 0 where
  pub slots : SameSlots n m
  pub nodes_status : m.nodes_status ≡ n.nodes_status
  pub start : m.start_timestamp ≡ n.start_timestamp

Alike-of :
    {n m : Node}
    → m.current_child_num ≡ n.current_child_num
    → m.connected_nodes ≡ n.connected_nodes
    → m.nodes_status ≡ n.nodes_status
    → m.start_timestamp ≡ n.start_timestamp
    → Alike n m
Alike-of count connected nodes_status start = record {
  slots = record { count = count; connected = connected };
  nodes_status = nodes_status;
  start = start;
}

Alike-refl : (n : Node) → Alike n n
Alike-refl n = Alike-of refl refl refl refl

pub Alike-trans : {a b c : Node} → Alike a b → Alike b c → Alike a c
Alike-trans f g = record {
  slots = SameSlots-trans f.slots g.slots;
  nodes_status = g.nodes_status ∙ f.nodes_status;
  start = g.start ∙ f.start;
}

Alike-if : {n a b : Node} (c : Bool) → Alike n a → Alike n b → Alike n (if c then a else b)
Alike-if true f g = f
Alike-if false f g = g

pub Alike-Counted : {n m : Node} → Alike n m → Counted n → Counted m
Alike-Counted f h = rw (f.slots.count, f.slots.connected) h

sent-Alike : (n : Node) (bytes : List ℕ) (dst_id : ℕ) → Alike n (send_packet n bytes dst_id)
unfolding send_packet
sent-Alike n bytes dst_id = Alike-of refl refl refl refl

send_my_id-Alike : (n : Node) (protocol dst_id : ℕ) → Alike n (send_my_id n protocol dst_id)
unfolding send_my_id
send_my_id-Alike n protocol dst_id = sent-Alike n _ dst_id

send_keepalives-Alike : (rounds i : ℕ) (n : Node) → Alike n (send_keepalives rounds i n)
unfolding send_keepalives
send_keepalives-Alike zero i n = Alike-refl n
send_keepalives-Alike (suc rounds) i n =
    Alike-trans (Alike-if (bit n.connected_nodes i) (send_my_id-Alike n _ i) (Alike-refl n))
      (send_keepalives-Alike rounds (i + 1) _)

pub keepalive_phase-Alike : (n : Node) (w : World) → Alike n (keepalive_phase n w)
unfolding keepalive_phase
keepalive_phase-Alike n w =
    Alike-if _ (Alike-trans (Alike-of refl refl refl refl) (send_keepalives-Alike _ 0 _))
      (Alike-refl n)

pub setup_phase-Alike : (n : Node) (w : World) → Alike n (setup_phase n w)
unfolding setup_phase send_setup
setup_phase-Alike n w =
    Alike-if _ (Alike-trans (Alike-of refl refl refl refl) (sent-Alike _ _ parent_id))
      (Alike-refl n)

send_req_lists-Alike : (l : List NodeStatus) (n : Node) → Alike n (send_req_lists l n)
unfolding send_req_lists renew_dst_ip_and_mac
send_req_lists-Alike [] n = Alike-refl n
send_req_lists-Alike (s ∷ l) n =
    Alike-trans (Alike-trans (Alike-of refl refl refl refl) (send_my_id-Alike _ _ _))
      (send_req_lists-Alike l _)

pub list_phase-Alike : (n : Node) (w : World) → Alike n (list_phase n w)
unfolding list_phase
list_phase-Alike n w =
    Alike-if _
      (Alike-trans (Alike-trans (Alike-of refl refl refl refl) (send_my_id-Alike _ _ parent_id))
        (send_req_lists-Alike n.nodes_list _))
      (Alike-refl n)

cal_played_buffer-Alike : (n : Node) (w : World) → Alike n (cal_played_buffer n w)
unfolding cal_played_buffer
cal_played_buffer-Alike n w = ground arith

cache_phase-Alike : (n : Node) (w : World) → Alike n (cache_phase n w)
unfolding cache_phase
cache_phase-Alike n w = ground arith

depart_phase-Alike : (n : Node) (w : World) → Alike n (depart_phase n w)
unfolding depart_phase send_depart send_packet
depart_phase-Alike n w = ground arith

pub buffer_phases-Alike : (n : Node) (w : World) → Alike n (buffer_phases n w)
unfolding buffer_phases
buffer_phases-Alike n w =
    Alike-trans (Alike-trans (cal_played_buffer-Alike n w) (cache_phase-Alike _ w))
      (depart_phase-Alike _ w)
