-- ===== src/Node/Count.antt =====
-- The count of the children against the bits of CONNECTED_NODES, and CheckChildNum.
use p2p_live_streming_system.Prelude.{
  ℕ, zero, suc, ◌+◌, ◌/◌, ◌%◌, ◌<◌, ◌≡◌, Option, some, none, true, false, arith,
}
use p2p_live_streming_system.Prelude.Int.{ℤ, pos, ◌+ℤ◌, ◌-ℤ◌}
use p2p_live_streming_system.Node.{Node, bit, set_bit, clear_bit, parent_id}
use p2p_live_streming_system.Node.Slots.{free_loop, check_child_num}

-- The number of children whose bit is set.
abbrev pub children : ℕ → ℕ
children connected = connected % 2 + connected / 2 % 2

-- CURRENT_CHILD_NUM counts the children's bits, and no bit stands beyond the parent's.
pub record IsCounted (num : ℤ) (connected : ℕ) : Type 0 where
  pub count : num ≡ pos (children connected)
  pub bits : connected < 8

-- What CheckChildNum must find.
abbrev pub IsFree : ℕ → Option ℕ → Type 0
IsFree connected none = children connected ≡ 2
IsFree connected (some i) = (i < 2) × (bit connected i ≡ false)

-- On a node with a right count, CheckChildNum returns a child's slot that is not connected, and -1 only
-- if both are connected.
pub check_child_num-IsFree :
    (n : Node)
    → IsCounted n.current_child_num n.connected_nodes
    → IsFree n.connected_nodes (check_child_num n)
unfolding check_child_num free_loop
check_child_num-IsFree n h = rw (h.count) (ground (arith, h.bits))

counted_up : (k : ℕ) → pos k +ℤ pos 1 ≡ pos (k + 1)
unfolding ◌+ℤ◌
counted_up k = ground arith

counted_down : (k : ℕ) → pos (k + 1) -ℤ pos 1 ≡ pos k
unfolding ◌-ℤ◌
counted_down k = ground arith

set_bit-children :
    (connected i : ℕ)
    → connected < 8
    → i < 2
    → bit connected i ≡ false
    → (children (set_bit connected i) ≡ children connected + 1) × (set_bit connected i < 8)
set_bit-children connected zero h l e = ground arith
set_bit-children connected (suc zero) h l e = ground arith
set_bit-children connected (suc (suc i)) h l e = absurd (omega arith)

clear_bit-children :
    (connected i : ℕ)
    → connected < 8
    → i < 2
    → bit connected i ≡ true
    → (children (clear_bit connected i) + 1 ≡ children connected) × (clear_bit connected i < 8)
clear_bit-children connected zero h l e = ground arith
clear_bit-children connected (suc zero) h l e = ground arith
clear_bit-children connected (suc (suc i)) h l e = absurd (omega arith)

-- A child that takes a free slot.
pub set_bit-IsCounted :
    (num : ℤ) (connected i : ℕ)
    → IsCounted num connected
    → i < 2
    → bit connected i ≡ false
    → IsCounted (num +ℤ pos 1) (set_bit connected i)
set_bit-IsCounted num connected i h small free =
    let (more, bits) = set_bit-children connected i h.bits small free in
    record { count = rw (h.count, more) (counted_up (children connected)); bits = bits }

pub clear_bit-IsCounted :
    (num : ℤ) (connected i : ℕ)
    → IsCounted num connected
    → i < 2
    → bit connected i ≡ true
    → IsCounted (num -ℤ pos 1) (clear_bit connected i)
clear_bit-IsCounted num connected i h small taken =
    let (less, bits) = clear_bit-children connected i h.bits small taken in
    record {
      count = rw (h.count, ← less) (counted_down (children (clear_bit connected i)));
      bits = bits;
    }

-- The parent's bit does not count.
pub parent_set-IsCounted :
    (num : ℤ) (connected : ℕ)
    → IsCounted num connected
    → bit connected parent_id ≡ false
    → IsCounted num (set_bit connected parent_id)
parent_set-IsCounted num connected h free = ground (arith, h.bits)

pub parent_clear-IsCounted :
    (num : ℤ) (connected : ℕ)
    → IsCounted num connected
    → bit connected parent_id ≡ true
    → IsCounted num (clear_bit connected parent_id)
parent_clear-IsCounted num connected h free = ground (arith, h.bits)
