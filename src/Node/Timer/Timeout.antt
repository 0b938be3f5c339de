-- ===== src/Node/Timer/Timeout.antt =====
-- A neighbour that does not answer.
use p2p_live_streming_system.Prelude.{
  ℕ, ◌+◌, ◌*◌, ◌<◌, ◌≡◌, ◌≢◌, refl, ap, sym, ◌∙◌, Bool, Bool-cases, inl, inr, true, false, ◌==◌,
  if◌then◌else◌, arith, ◌&&◌, not,
}
use p2p_live_streming_system.Prelude.Int.{pos, ◌-ℤ◌}
use p2p_live_streming_system.Wire.{Timeval}
use p2p_live_streming_system.Fault.{Result, ok, err, Ensures}
use p2p_live_streming_system.Peers.{except_list_push}
use p2p_live_streming_system.Node.{
  Node, World, bit, clear_bit, parent_id, renew_dst_ip_and_mac, send_packet, the_cluster, stamp,
  my_status, parent_status,
}
use p2p_live_streming_system.Node.Send.{send_connect}
use p2p_live_streming_system.Node.Reconnect.{node_retry, prior_node, drop_except}
use p2p_live_streming_system.Node.Count.{children, clear_bit-IsCounted}
use p2p_live_streming_system.Node.Frame.{SameSlots, Ensures-bind}
use p2p_live_streming_system.Node.Invariant.{Counted}
use p2p_live_streming_system.Node.Timer.{
  timeout_round, drop_slot, is_zero_time, exceeded, five_seconds, later,
}

-- On a node with a right count, the round of TimeProcess over a child's slot keeps the count
-- right, whether the child has timed out or not.
pub timeout_round-Counted :
    (id : ℕ) (w : World) (n : Node) → id < 2 → Counted n → Ensures Counted (timeout_round id w n)
unfolding timeout_round
timeout_round-Counted id w n small h = elim (Bool-cases (bit n.connected_nodes id)) [
  | inl e ↦ rw e (
      split e (is_zero_time timestamp) (exceeded n w (10 * (id + 1)) timestamp five_seconds)
        (id == parent_id) child)
  | inr e ↦ rw e h
]
  where
    timestamp : Timeval
    timestamp = (n.nodes_status id).timestamp

    child : (id == parent_id) ≡ false
    child = ground arith

    split :
        bit n.connected_nodes id ≡ true
        → (unstamped late parent : Bool) → parent ≡ false
        → Ensures Counted (
            if unstamped
            then ok n
            else if late
            then (if parent
                then node_retry (drop_slot n id) (later w (10 * (id + 1) + 1))
                else ok (drop_slot n id))
            else ok n)
    split on true late parent e = h
    split on false false parent e = h
    split on false true true e = absurd (ground arith)
    split on false true false e =
        clear_bit-IsCounted n.current_child_num n.connected_nodes id h small on

-- NodeRetry leaves the slots alone.
node_retry-SameSlots : (n : Node) (w : World) → Ensures (SameSlots n) (node_retry n w)
unfolding node_retry send_connect renew_dst_ip_and_mac send_packet
node_retry-SameSlots n w = Ensures-bind (SameSlots n) (prior_node tried) _ λ (s, found).
    Ensures-bind (SameSlots n) (the_cluster tried) _
      λ cluster. record { count = count found; connected = connected found }
  where
    tried : Node
    tried = record n {
      is_retry = true;
      retry_timestamp = stamp n w 0;
      except_list = except_list_push (my_status n).id n.except_list (parent_status n).id;
    }

    count : (found : Bool) → (drop_except tried found).current_child_num ≡ n.current_child_num
    count true = refl
    count false = refl

    connected : (found : Bool) → (drop_except tried found).connected_nodes ≡ n.connected_nodes
    connected true = refl
    connected false = refl

-- What a round over the parent's slot leaves: a parent that timed out loses its own bit and no other,
-- and the count of the children goes down all the same; in every other case the node stays.
abbrev pub AfterParent : Bool → Node → Node → Type 0
AfterParent true n m =
    (m.current_child_num ≡ n.current_child_num -ℤ pos 1)
    × (bit m.connected_nodes parent_id ≡ false)
    × (bit m.connected_nodes 0 ≡ bit n.connected_nodes 0)
    × (bit m.connected_nodes 1 ≡ bit n.connected_nodes 1)
    × (¬ Counted m)
AfterParent false n m = m ≡ n

-- The parent's slot is connected, stamped, and older than five seconds.
abbrev pub parent_timed_out : Node → World → Bool
parent_timed_out n w =
    let timestamp = (n.nodes_status parent_id).timestamp in
    bit n.connected_nodes parent_id
    && (not (is_zero_time timestamp) && exceeded n w 30 timestamp five_seconds)

parent_cleared :
    (c : ℕ)
    → c < 8
    → bit c parent_id ≡ true
    → (bit (clear_bit c parent_id) parent_id ≡ false)
      × (bit (clear_bit c parent_id) 0 ≡ bit c 0)
      × (bit (clear_bit c parent_id) 1 ≡ bit c 1)
      × (children (clear_bit c parent_id) ≡ children c)
parent_cleared c h e = (ground arith, ground arith, ground arith, ground arith)

one_less : (k : ℕ) → pos k -ℤ pos 1 ≢ pos k
unfolding ◌-ℤ◌
one_less k e = ground (arith, e)

uncounted :
    (n m : Node)
    → Counted n
    → bit n.connected_nodes parent_id ≡ true
    → SameSlots (drop_slot n parent_id) m
    → AfterParent true n m
uncounted n m h on e =
    let (parent, first, second, same) = parent_cleared n.connected_nodes h.bits on in
    (
      e.count,
      rw e.connected parent,
      rw e.connected first,
      rw e.connected second,
      λ k. one_less (children n.connected_nodes) (
          sym (ap (λ c. c -ℤ pos 1) h.count)
          ∙ sym e.count
          ∙ k.count
          ∙ ap (λ c. pos (children c)) e.connected
          ∙ ap pos same),
    )

-- On a node with a right count, if the round of TimeProcess over the parent's slot returns: where the
-- slot is connected and stamped and its time is over, the parent's bit is cleared, the children's bits
-- stay as they were, and the count of the children, which has gone down by one, is no longer right; in
-- every other case the node stays as it was.
pub timeout_round-parent :
    (w : World) (n : Node)
    → Counted n
    → Ensures (AfterParent (parent_timed_out n w) n) (timeout_round parent_id w n)
unfolding timeout_round
timeout_round-parent w n h =
    split (bit n.connected_nodes parent_id) refl (is_zero_time timestamp)
      (exceeded n w 30 timestamp five_seconds)
  where
    timestamp : Timeval
    timestamp = (n.nodes_status parent_id).timestamp

    lost :
        (r : Result Node)
        → bit n.connected_nodes parent_id ≡ true
        → Ensures (SameSlots (drop_slot n parent_id)) r
        → Ensures (AfterParent true n) r
    lost (ok m) on e = uncounted n m h on e
    lost (err f) on e = tt

    split :
        (on : Bool)
        → bit n.connected_nodes parent_id ≡ on
        → (unstamped late : Bool)
        → Ensures (AfterParent (on && (not unstamped && late)) n) (
            if on
            then (if unstamped
                then ok n
                else if late
                then node_retry (drop_slot n parent_id) (later w 31)
                else ok n)
            else ok n)
    split false e unstamped late = refl
    split true e true late = refl
    split true e false false = refl
    split true e false true = lost _ e (node_retry-SameSlots (drop_slot n parent_id) (later w 31))
