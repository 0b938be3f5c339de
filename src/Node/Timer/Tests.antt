-- ===== src/Node/Timer/Tests.antt =====
-- A node with one child and its parent, 20 seconds after the start.
use p2p_live_streming_system.Prelude.{◌+◌, ◌≡◌, refl, true, arith}
use p2p_live_streming_system.Prelude.Int.{◌+ℤ◌, ◌-ℤ◌}
use p2p_live_streming_system.Time.{seconds, is_exceed_time, diff_current_time, update_timestamp}
use p2p_live_streming_system.Fault.{Ensures}
use p2p_live_streming_system.Node.{Node, World, parent_id}
use p2p_live_streming_system.Node.Tests.{one_child, still_world, status}
use p2p_live_streming_system.Node.Timer.{timeout_round, exceeded, five_seconds}
use p2p_live_streming_system.Node.Timer.Timeout.{
  AfterParent, parent_timed_out, timeout_round-parent,
}
use p2p_live_streming_system.Node.Invariant.{Counted}

abbrev world : World
world = record still_world { now = λ k. seconds 20 }

abbrev with_parent : Node
with_parent = record one_child {
  connected_nodes = 5;
  nodes_status = λ i. (let s = status (9 + i) in record s { timestamp = seconds 1 });
}

parent_late : exceeded with_parent world 30 (seconds 1) five_seconds ≡ true
unfolding is_exceed_time diff_current_time update_timestamp ◌+ℤ◌ ◌-ℤ◌
parent_late = refl

with_parent-Counted : Counted with_parent
with_parent-Counted = record { count = refl; bits = omega arith }

-- The parent has timed out.
with_parent_lost : parent_timed_out with_parent world ≡ true
with_parent_lost = rw parent_late refl

timeout_round-parent_example :
    Ensures
      (AfterParent (parent_timed_out with_parent world) with_parent)
      (timeout_round parent_id world with_parent)
timeout_round-parent_example = timeout_round-parent world with_parent with_parent-Counted
