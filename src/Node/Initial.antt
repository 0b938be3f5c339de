-- ===== src/Node/Initial.antt =====
-- SendInitialStatus and NodeInitialStatus: what a parent says of itself and of its new child.
use p2p_live_streming_system.Prelude.{
  ℕ, zero, suc, ◌+◌, ◌*◌, ◌%◌, ◌^◌, ◌<◌, ◌≤◌, ◌≡◌, refl, sym, ap, ◌∙◌, List, [], ◌∷◌, ◌++◌, Bool,
  true, false, not, ◌&&◌, ltb, ◌==◌, if◌then◌else◌, arith, shift, at, at-append, length,
  length-append, take, replicate,
}
use p2p_live_streming_system.Prelude.Int.{ℤ, pos, ◌+ℤ◌, ◌*ℤ◌}
use mathlib.Core.Path.{fun_ext}
use mathlib.Core.List.{append_assoc}
use p2p_live_streming_system.Wire.{
  NodeStatus, IsNodeStatus, copy_node_status_to_bytes, copy_bytes_to_node_status,
}
use p2p_live_streming_system.Wire.RoundTrip.{
  node_status_round_trip, length-copy_node_status_to_bytes,
}
use p2p_live_streming_system.Fault.{ok}
use p2p_live_streming_system.Node.{
  Node, World, bit, parent_id, my_status, parent_status, send_packet, stamp, update,
}
use p2p_live_streming_system.Node.Send.{
  send_initial_status, send_buffer, timecode_bytes, connected_statuses, initial_status_proto,
  max_data_bytes,
}
use p2p_live_streming_system.Node.Join.{node_initial_status}
use p2p_live_streming_system.Node.Count.{children}
use p2p_live_streming_system.Node.Invariant.{Counted}

take_all : (xs ys : List ℕ) (n : ℕ) → n ≡ length xs → take n (xs ++ ys) ≡ xs
take_all [] ys zero e = refl
take_all [] ys (suc n) e = absurd (omega arith)
take_all (x ∷ xs) ys zero e = absurd (omega arith)
take_all (x ∷ xs) ys (suc n) e = ap (λ t. x ∷ t) (take_all xs ys n (omega arith))

-- A buffer that is filled exactly is sent as it is.
send_buffer-exact :
    (n : Node) (content : List ℕ) (data_bytes : ℤ) (dst_id : ℕ)
    → data_bytes ≡ pos (length content)
    → length content ≤ max_data_bytes
    → send_buffer n content data_bytes dst_id ≡ ok (send_packet n content dst_id)
unfolding send_buffer
send_buffer-exact n content data_bytes dst_id e small =
    rw (e, fits, word, fits, take_all content (replicate max_data_bytes 0) (length content) refl)
      refl
  where
    fits : ltb max_data_bytes (length content) ≡ false
    fits = ground arith

    word : length content % 2 ^ 16 ≡ length content
    word = omega arith

abbrev one_if : Bool → ℕ
one_if b = if b then 1 else 0

length_piece :
    (b : Bool) (s : NodeStatus) (rest : List ℕ)
    → length ((if b then copy_node_status_to_bytes s else []) ++ rest) ≡ 30 * one_if b + length rest
length_piece true s rest =
    omega
      (arith, length-append (copy_node_status_to_bytes s) rest, length-copy_node_status_to_bytes s)
length_piece false s rest = omega arith

length_three :
    (a b c : Bool) (s t u : NodeStatus)
    → length (
        (if a then copy_node_status_to_bytes s else [])
        ++ ((if b then copy_node_status_to_bytes t else [])
            ++ ((if c then copy_node_status_to_bytes u else []) ++ [])))
      ≡ 30 * (one_if a + one_if b + one_if c)
length_three a b c s t u =
    let last = (if c then copy_node_status_to_bytes u else []) ++ [] in
    let more = (if b then copy_node_status_to_bytes t else []) ++ last in
    omega (arith, length_piece a s more, length_piece b t last, length_piece c u [])

-- All the connected slots but that of the new child are counted.
slots_counted :
    (connected dst_id : ℕ)
    → dst_id < 2
    → bit connected dst_id ≡ false
    → one_if (not (0 == dst_id) && bit connected 0)
        + one_if (not (1 == dst_id) && bit connected 1)
        + one_if (not (2 == dst_id) && bit connected 2)
      ≡ children connected + one_if (bit connected parent_id)
slots_counted connected zero small free = ground arith
slots_counted connected (suc zero) small free = ground arith
slots_counted connected (suc (suc dst_id)) small free = absurd (omega arith)

length-connected_statuses :
    (n : Node) (dst_id : ℕ)
    → dst_id < 2
    → bit n.connected_nodes dst_id ≡ false
    → length (connected_statuses 3 0 dst_id n)
      ≡ 30 * (children n.connected_nodes + one_if (bit n.connected_nodes parent_id))
unfolding connected_statuses
length-connected_statuses n dst_id small free =
    length_three (not (0 == dst_id) && bit n.connected_nodes 0)
      (not (1 == dst_id) && bit n.connected_nodes 1) (not (2 == dst_id) && bit n.connected_nodes 2)
      (n.nodes_status 0) (n.nodes_status 1) (n.nodes_status 2)
    ∙ ap (λ k. 30 * k) (slots_counted n.connected_nodes dst_id small free)

-- What SendInitialStatus writes behind the protocol byte.
abbrev pub initial_status : Node → ℕ → List ℕ
initial_status n dst_id =
    timecode_bytes 8 0 n.timecode_offset
    ++ (copy_node_status_to_bytes (n.nodes_status dst_id)
        ++ (copy_node_status_to_bytes (my_status n) ++ connected_statuses 3 0 dst_id n))

length-initial_status :
    (n : Node) (dst_id : ℕ)
    → dst_id < 2
    → bit n.connected_nodes dst_id ≡ false
    → length (initial_status n dst_id)
      ≡ 68 + 30 * (children n.connected_nodes + one_if (bit n.connected_nodes parent_id))
unfolding timecode_bytes
length-initial_status n dst_id small free =
    let rest = connected_statuses 3 0 dst_id n in
    let mine = copy_node_status_to_bytes (my_status n) ++ rest in
    omega (
      arith,
      length-connected_statuses n dst_id small free,
      length-append (copy_node_status_to_bytes (my_status n)) rest,
      length-append (copy_node_status_to_bytes (n.nodes_status dst_id)) mine,
      length-copy_node_status_to_bytes (my_status n),
      length-copy_node_status_to_bytes (n.nodes_status dst_id),
    )

announced :
    (k : ℕ) (b : Bool)
    → pos 1 +ℤ pos 30 *ℤ (pos k +ℤ (if b then pos 3 else pos 2)) +ℤ pos 8
      ≡ pos (suc (68 + 30 * (k + one_if b)))
unfolding ◌+ℤ◌ ◌*ℤ◌
announced k true = ground arith
announced k false = ground arith

children_le : (connected : ℕ) → children connected ≤ 2
children_le connected = omega arith

-- On a node with a right count, SendInitialStatus to a child's slot that is not connected yet
-- announces exactly the bytes that it wrote, and they fit the buffer.
pub send_initial_status_lem :
    (n : Node) (dst_id : ℕ)
    → Counted n
    → dst_id < 2
    → bit n.connected_nodes dst_id ≡ false
    → send_initial_status n dst_id
      ≡ ok (send_packet n (initial_status_proto ∷ initial_status n dst_id) dst_id)
unfolding send_initial_status
send_initial_status_lem n dst_id h small free =
    send_buffer-exact n (initial_status_proto ∷ initial_status n dst_id) _ dst_id
      (ap
          (λ c.
            pos 1
            +ℤ pos 30 *ℤ (c +ℤ (if bit n.connected_nodes parent_id then pos 3 else pos 2))
            +ℤ pos 8)
          h.count
        ∙ announced (children n.connected_nodes) (bit n.connected_nodes parent_id)
        ∙ ap (λ k. pos (suc k)) (sym (length-initial_status n dst_id small free)))
      fits
  where
    fits : length (initial_status_proto ∷ initial_status n dst_id) ≤ max_data_bytes
    fits = ground (arith, length-initial_status n dst_id small free, children_le n.connected_nodes)

shift-append : (xs ys : List ℕ) → shift (at (xs ++ ys)) (length xs) ≡ at ys
shift-append xs ys = fun_ext (at-append xs ys)

behind_timecode :
    (offset : ℕ) (zs : List ℕ) → shift (at (timecode_bytes 8 0 offset ++ zs)) 8 ≡ at zs
unfolding timecode_bytes
behind_timecode offset zs = shift-append (timecode_bytes 8 0 offset) zs

behind_status :
    (offset : ℕ) (s : NodeStatus) (zs : List ℕ)
    → shift (at (timecode_bytes 8 0 offset ++ (copy_node_status_to_bytes s ++ zs))) 38 ≡ at zs
unfolding timecode_bytes copy_node_status_to_bytes
behind_status offset s zs =
    shift-append (timecode_bytes 8 0 offset ++ copy_node_status_to_bytes s) zs

initial_status-append :
    (n : Node) (dst_id : ℕ) (rest : List ℕ)
    → initial_status n dst_id ++ rest
      ≡ timecode_bytes 8 0 n.timecode_offset
        ++ (copy_node_status_to_bytes (n.nodes_status dst_id)
            ++ (copy_node_status_to_bytes (my_status n)
                ++ (connected_statuses 3 0 dst_id n ++ rest)))
initial_status-append n dst_id rest =
    let slots = connected_statuses 3 0 dst_id n in
    let mine = copy_node_status_to_bytes (my_status n) in
    let given = copy_node_status_to_bytes (n.nodes_status dst_id) in
    rw
      (
        append_assoc (timecode_bytes 8 0 n.timecode_offset) (given ++ (mine ++ slots)) rest,
        append_assoc given (mine ++ slots) rest,
        append_assoc mine slots rest,
      )
      refl

-- NodeInitialStatus, on a node without a parent and on what SendInitialStatus wrote of statuses
-- that fit their types: the new child takes its own status from what its parent holds of it and
-- its parent's status from the parent's own, each with a time stamp of its own, and counts its
-- parent as connected.
pub node_initial_status-initial_status :
    (n m : Node) (dst_id data_bytes : ℕ) (w : World) (rest : List ℕ)
    → IsNodeStatus (n.nodes_status dst_id)
    → IsNodeStatus (my_status n)
    → bit m.connected_nodes parent_id ≡ false
    → let k = node_initial_status m w (at (initial_status n dst_id ++ rest)) data_bytes in
      (my_status k ≡ record (n.nodes_status dst_id) { timestamp = (my_status m).timestamp })
      × (parent_status k ≡ record (my_status n) { timestamp = stamp m w 2 })
      × (bit k.connected_nodes parent_id ≡ true)
unfolding node_initial_status update
node_initial_status-initial_status n m dst_id data_bytes w rest hd hm free = (
  ap (λ q. copy_bytes_to_node_status (my_status m) q) given
      ∙ node_status_round_trip (n.nodes_status dst_id) (my_status m) _ hd,
  ap
        (λ q.
          (let s = copy_bytes_to_node_status (parent_status m) q in
            record s { timestamp = stamp m w 2 }))
        mine
      ∙ ap (λ s. (let t : NodeStatus = s in record t { timestamp = stamp m w 2 }))
          (node_status_round_trip (my_status n) (parent_status m) _ hm),
  ground arith,
)
  where
    given :
        shift (at (initial_status n dst_id ++ rest)) 8
        ≡ at (
            copy_node_status_to_bytes (n.nodes_status dst_id)
            ++ (copy_node_status_to_bytes (my_status n)
                ++ (connected_statuses 3 0 dst_id n ++ rest)))
    given = rw (initial_status-append n dst_id rest) (behind_timecode n.timecode_offset _)

    mine :
        shift (at (initial_status n dst_id ++ rest)) 38
        ≡ at (copy_node_status_to_bytes (my_status n) ++ (connected_statuses 3 0 dst_id n ++ rest))
    mine =
        rw (initial_status-append n dst_id rest)
          (behind_status n.timecode_offset (n.nodes_status dst_id) _)
