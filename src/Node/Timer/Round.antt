-- ===== src/Node/Timer/Round.antt =====
-- A whole round of the timer (TimeProcess in src/common/p2p.c) while the parent answers.
use p2p_live_streming_system.Prelude.{
  ℕ, ◌+◌, ◌*◌, ◌<◌, ◌≡◌, refl, ◌∙◌, Bool, true, false, ◌==◌, ◌&&◌, if◌then◌else◌, arith,
}
use p2p_live_streming_system.Wire.{Timeval}
use p2p_live_streming_system.Fault.{Result, ok, err, Ensures, Ensures-then, ◌>>=◌}
use p2p_live_streming_system.Node.{Node, World, bit, parent_id}
use p2p_live_streming_system.Node.Reconnect.{node_retry}
use p2p_live_streming_system.Node.Invariant.{Counted}
use p2p_live_streming_system.Node.Steps.{node_retry-Counted}
use p2p_live_streming_system.Node.Timer.{
  timeout_round, timeout_phase, drop_slot, is_zero_time, exceeded, five_seconds, later,
  keepalive_phase, setup_phase, list_phase, retry_phase, time_process,
}
use p2p_live_streming_system.Node.Timer.Timeout.{timeout_round-Counted}
use p2p_live_streming_system.Node.Timer.Phases.{
  Alike, Alike-trans, Alike-Counted, keepalive_phase-Alike, setup_phase-Alike, list_phase-Alike,
  buffer_phases-Alike,
}

-- The stamp of the parent is not older than five seconds, or it was never set.
abbrev pub ParentAnswers : Node → World → Type 0
ParentAnswers n w =
    is_zero_time (n.nodes_status parent_id).timestamp ≡ false
    → exceeded n w 30 (n.nodes_status parent_id).timestamp five_seconds ≡ false

-- A right count at a place in the timeouts, with the stamps that the round started with.
record Kept (n m : Node) : Type 0 where
  counted : Counted m
  nodes_status : m.nodes_status ≡ n.nodes_status
  start : m.start_timestamp ≡ n.start_timestamp

-- A child that has timed out leaves only the slots.
timeout_round-stamps :
    (id : ℕ) (w : World) (n : Node)
    → id < 2
    → Ensures
        (λ m. (m.nodes_status ≡ n.nodes_status) × (m.start_timestamp ≡ n.start_timestamp))
        (timeout_round id w n)
unfolding timeout_round
timeout_round-stamps id w n small =
    split (bit n.connected_nodes id) (is_zero_time timestamp)
      (exceeded n w (10 * (id + 1)) timestamp five_seconds) (id == parent_id) child
  where
    timestamp : Timeval
    timestamp = (n.nodes_status id).timestamp

    child : (id == parent_id) ≡ false
    child = ground arith

    split :
        (on unstamped late parent : Bool)
        → parent ≡ false
        → Ensures
            (λ m. (m.nodes_status ≡ n.nodes_status) × (m.start_timestamp ≡ n.start_timestamp))
            (if on
              then (if unstamped
                  then ok n
                  else if late
                  then (if parent
                      then node_retry (drop_slot n id) (later w (10 * (id + 1) + 1))
                      else ok (drop_slot n id))
                  else ok n)
              else ok n)
    split false unstamped late parent e = (refl, refl)
    split true true late parent e = (refl, refl)
    split true false false parent e = (refl, refl)
    split true false true false e = (refl, refl)
    split true false true true e = absurd (ground arith)

child-Kept :
    (id : ℕ) (w : World) (n m : Node) → id < 2 → Kept n m → Ensures (Kept n) (timeout_round id w m)
child-Kept id w n m small k =
    both (timeout_round id w m) (timeout_round-Counted id w m small k.counted)
      (timeout_round-stamps id w m small)
  where
    both :
        (r : Result Node)
        → Ensures Counted r
        → Ensures
            (λ t. (t.nodes_status ≡ m.nodes_status) × (t.start_timestamp ≡ m.start_timestamp))
            r
        → Ensures (Kept n) r
    both (ok t) h e = record {
      counted = h;
      nodes_status = e.0 ∙ k.nodes_status;
      start = e.1 ∙ k.start;
    }
    both (err f) h e = tt

parent-Kept :
    (w : World) (n m : Node)
    → ParentAnswers n w
    → Kept n m
    → Ensures (Kept n) (timeout_round parent_id w m)
unfolding timeout_round
parent-Kept w n m answers k =
    split (bit m.connected_nodes parent_id) (is_zero_time timestamp)
      (exceeded m w 30 timestamp five_seconds) (rw (k.nodes_status, k.start) answers)
  where
    timestamp : Timeval
    timestamp = (m.nodes_status parent_id).timestamp

    split :
        (on unstamped late : Bool)
        → (unstamped ≡ false → late ≡ false)
        → Ensures (Kept n) (
            if on
            then (if unstamped
                then ok m
                else if late
                then node_retry (drop_slot m parent_id) (later w 31)
                else ok m)
            else ok m)
    split false unstamped late e = k
    split true true late e = k
    split true false false e = k
    split true false true e = absurd (true_false (e refl))
      where
        true_false : true ≡ false → ⊥
        true_false f = ground arith

mine-Kept : (w : World) (n m : Node) → Kept n m → Ensures (Kept n) (timeout_round 3 w m)
unfolding timeout_round
mine-Kept w n m k = rw off k
  where
    off : bit m.connected_nodes 3 ≡ false
    off = ground (arith, k.counted.bits)

timeout_phase-Kept :
    (n m : Node) (w : World) → ParentAnswers n w → Kept n m → Ensures (Kept n) (timeout_phase m w)
unfolding timeout_phase
timeout_phase-Kept n m w answers k =
    Ensures-then (Kept n) (Kept n) (timeout_round 0 w m >>= timeout_round 1 w >>= timeout_round 2 w)
      (timeout_round 3 w)
      (Ensures-then (Kept n) (Kept n) (timeout_round 0 w m >>= timeout_round 1 w)
        (timeout_round 2 w)
        (Ensures-then (Kept n) (Kept n) (timeout_round 0 w m) (timeout_round 1 w)
          (child-Kept 0 w n m (omega arith) k) λ t. child-Kept 1 w n t (omega arith))
        λ t. parent-Kept w n t answers)
      λ t. mine-Kept w n t

retry_phase-Counted : (n : Node) (w : World) → Counted n → Ensures Counted (retry_phase n w)
unfolding retry_phase
retry_phase-Counted n w h = go (n.is_retry && exceeded n w 60 n.retry_timestamp five_seconds)
  where
    go : (b : Bool) → Ensures Counted (if b then node_retry n (later w 61) else ok n)
    go true = node_retry-Counted n (later w 61) h
    go false = h

-- A whole round of TimeProcess on a node with a right count, when the parent's stamp is not older than
-- five seconds or was never set: whichever children time out and whatever is sent, a node that goes on
-- has a right count.
pub time_process-Counted :
    (n : Node) (w : World) → Counted n → ParentAnswers n w → Ensures Counted (time_process n w)
unfolding time_process
time_process-Counted n w h answers =
    Ensures-then (Kept n) Counted (timeout_phase before w) _
      (timeout_phase-Kept n before w answers (record {
        counted = Alike-Counted alike h;
        nodes_status = alike.nodes_status;
        start = alike.start;
      }))
      λ m k.
        Ensures-then Counted Counted (retry_phase (list_phase m w) w) _
          (retry_phase-Counted (list_phase m w) w (Alike-Counted (list_phase-Alike m w) k.counted))
          λ t e. Alike-Counted (buffer_phases-Alike t w) e
  where
    before : Node
    before = setup_phase (keepalive_phase n w) w

    alike : Alike n before
    alike = Alike-trans (keepalive_phase-Alike n w) (setup_phase-Alike (keepalive_phase n w) w)
