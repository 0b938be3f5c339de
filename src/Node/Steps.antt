-- ===== src/Node/Steps.antt =====
-- CURRENT_CHILD_NUM and CONNECTED_NODES in the other handlers (src/common/p2p.c).
use p2p_live_streming_system.Prelude.{
  ℕ, zero, suc, ◌+◌, ◌%◌, ◌^◌, ◌<◌, ◌≡◌, ◌∙◌, Option, some, none, Bool, true, false, Bool-cases,
  inl, inr, ◌==◌, ==_iff, if◌then◌else◌, arith, Buf,
}
use p2p_live_streming_system.Prelude.Int.{pos, ltb_ℤ}
use p2p_live_streming_system.Words.{htons, htonl, load_u16}
use p2p_live_streming_system.Wire.{NodeStatus, copy_bytes_to_node_status}
use p2p_live_streming_system.Fault.{Result, ok, err, Ensures, ◌>>=◌}
use p2p_live_streming_system.Node.{
  Node, World, bit, clear_bit, parent_id, tmp_id, my_status, set_status, the_cluster,
  renew_dst_ip_and_mac, send_packet, default_cache, max_node_num, stamp, parent_status,
}
use p2p_live_streming_system.Peers.{except_list_push}
use p2p_live_streming_system.Node.Slots.{check_child_num, is_duplicated_child}
use p2p_live_streming_system.Node.Send.{
  send_unaccept, send_accept, send_detach, send_connect, send_my_id, send_setup, send_keepalive_res,
  send_res_list,
}
use p2p_live_streming_system.Node.Join.{node_initial_status, node_advertise}
use p2p_live_streming_system.Node.Reconnect.{
  connect_child, node_connect, node_depart, depart_round, prior_node, node_detach, node_accept,
  node_unaccept, node_retry, drop_except,
}
use p2p_live_streming_system.Node.Exchange.{
  find_slot, node_keepalive, node_keepalive_res, node_req_list, stamp_slots, is_neighbour,
}
use p2p_live_streming_system.Node.Count.{
  IsCounted, IsFree, check_child_num-IsFree, set_bit-IsCounted, clear_bit-IsCounted,
  parent_set-IsCounted, parent_clear-IsCounted,
}
use p2p_live_streming_system.Node.Frame.{Ensures-bind, send_res_list-SameSlots}
use p2p_live_streming_system.Node.Invariant.{Counted, kept}

connect_child-Counted :
    (n : Node) (w : World) (p : Buf) (status : NodeStatus) (i : ℕ)
    → Counted n
    → i < 2
    → bit n.connected_nodes i ≡ false
    → Counted (connect_child n w p status i)
unfolding connect_child renew_dst_ip_and_mac send_accept send_packet
connect_child-Counted n w p status i h small free =
    set_bit-IsCounted n.current_child_num n.connected_nodes i h small free

pub node_connect-Counted :
    (n : Node) (w : World) (p : Buf) → Counted n → Ensures Counted (node_connect n w p)
unfolding node_connect renew_dst_ip_and_mac send_my_id send_packet
node_connect-Counted n w p h =
    split (ltb_ℤ n.current_cache (pos default_cache)) (check_child_num n)
      (check_child_num-IsFree n h) (is_duplicated_child n status.id)
  where
    status : NodeStatus
    status = copy_bytes_to_node_status (my_status n) p

    refused : Node
    refused = send_unaccept (renew_dst_ip_and_mac n (htonl status.ipaddr) status.port tmp_id) tmp_id

    split :
        (young : Bool) (slot : Option ℕ)
        → IsFree n.connected_nodes slot
        → (duplicated : Result Bool)
        → Ensures Counted (
            if young then ok refused else elim slot [
              | none ↦ ok refused
              | some child_id ↦
                  (duplicated >>= λ d. ok (if d then n else connect_child n w p status child_id))
            ])
    split true slot f duplicated = h
    split false none f duplicated = h
    split false (some i) f (ok true) = h
    split false (some i) f (ok false) = connect_child-Counted n w p status i h f.0 f.1
    split false (some i) f (err e) = tt

-- A departing id stands only in slots that are connected.
pub record Connected (n : Node) (id : ℕ) : Type 0 where
  pub first : (n.nodes_status 0).id ≡ id → bit n.connected_nodes 0 ≡ true
  pub second : (n.nodes_status 1).id ≡ id → bit n.connected_nodes 1 ≡ true

depart_round-Counted :
    (id : ℕ) (n : Node) (cluster_seq i : ℕ)
    → Counted n
    → i < 2
    → ((n.nodes_status i).id ≡ id → bit n.connected_nodes i ≡ true)
    → Counted (depart_round id (n, cluster_seq) i).0
depart_round-Counted id n cluster_seq i h small taken =
    elim (Bool-cases ((n.nodes_status i).id == id)) [
      | inl e ↦ rw e (
          clear_bit-IsCounted n.current_child_num n.connected_nodes i h small
            (taken ((==_iff _ _).0 e)))
      | inr e ↦ rw e h
    ]

other_bit : (c : ℕ) → c < 8 → bit c 0 ≡ true → bit (clear_bit c 0) 1 ≡ bit c 1
other_bit c h e = ground arith

second_bit :
    (id : ℕ) (n : Node) (cluster_seq : ℕ)
    → Counted n
    → Connected n id
    → let m = (depart_round id (n, cluster_seq) 0).0 in
      (m.nodes_status 1).id ≡ id → bit m.connected_nodes 1 ≡ true
second_bit id n cluster_seq h c = elim (Bool-cases ((n.nodes_status 0).id == id)) [
  | inl e ↦ rw e (λ f. other_bit n.connected_nodes h.bits (c.first ((==_iff _ _).0 e)) ∙ c.second f)
  | inr e ↦ rw e (c.second)
]

pub node_depart-Counted :
    (n : Node) (w : World) (p : Buf)
    → Counted n
    → Connected n (copy_bytes_to_node_status (my_status n) p).id
    → Counted (node_depart n w p)
unfolding node_depart send_detach renew_dst_ip_and_mac send_packet
node_depart-Counted n w p h c =
    let id = (copy_bytes_to_node_status (my_status n) p).id in
    let m = depart_round id (n, w.junk 0 % 2 ^ 16) 0 in
    depart_round-Counted id m.0 m.1 1
      (depart_round-Counted id n (w.junk 0 % 2 ^ 16) 0 h (omega arith) (c.first)) (omega arith)
      (second_bit id n (w.junk 0 % 2 ^ 16) h c)

pub node_detach-Counted :
    (n : Node) (w : World) (p : Buf)
    → Counted n
    → bit n.connected_nodes parent_id ≡ true
    → Ensures Counted (node_detach n w p)
unfolding node_detach send_connect renew_dst_ip_and_mac send_packet
node_detach-Counted n w p h parent =
    Ensures-bind Counted (prior_node _) _
      λ s. parent_clear-IsCounted n.current_child_num n.connected_nodes h parent

pub node_accept-Counted : (n : Node) (w : World) (p : Buf) → Counted n → Counted (node_accept n w p)
unfolding node_accept
node_accept-Counted n w p h = elim (Bool-cases (bit n.connected_nodes parent_id)) [
  | inl e ↦ rw e h
  | inr e ↦ rw e (parent_set-IsCounted n.current_child_num n.connected_nodes h e)
]

drop_except-Counted :
    (m : Node) (found : Bool)
    → Counted m
    → IsCounted (drop_except m found).current_child_num (drop_except m found).connected_nodes
drop_except-Counted m true h = h
drop_except-Counted m false h = h

pub node_unaccept-Counted : (n : Node) (p : Buf) → Counted n → Ensures Counted (node_unaccept n p)
unfolding node_unaccept send_connect renew_dst_ip_and_mac send_packet
node_unaccept-Counted n p h =
    Ensures-bind Counted (prior_node _) _ λ (s, found). drop_except-Counted _ found h

pub node_retry-Counted : (n : Node) (w : World) → Counted n → Ensures Counted (node_retry n w)
unfolding node_retry send_connect renew_dst_ip_and_mac send_packet
node_retry-Counted n w h = Ensures-bind Counted (prior_node tried) _ λ (s, found).
    Ensures-bind Counted (the_cluster tried) _ λ cluster. drop_except-Counted tried found h
  where
    tried : Node
    tried = record n {
      is_retry = true;
      retry_timestamp = stamp n w 0;
      except_list = except_list_push (my_status n).id n.except_list (parent_status n).id;
    }

pub node_keepalive-Counted : (n : Node) (p : Buf) → Counted n → Counted (node_keepalive n p)
unfolding node_keepalive send_my_id send_packet
node_keepalive-Counted n p h = split (find_slot max_node_num 0 n (htons (load_u16 p)) none)
  where
    split :
        (slot : Option ℕ)
        → Counted (elim slot [ none ↦ n | some dst_id ↦ send_keepalive_res n dst_id ])
    split none = h
    split (some i) = h

stamp_slots-Counted :
    (rounds i id : ℕ) (w : World) (n : Node) → Counted n → Counted (stamp_slots rounds i id w n)
unfolding stamp_slots
stamp_slots-Counted zero i id w n h = h
stamp_slots-Counted (suc rounds) i id w n h =
    stamp_slots-Counted rounds (i + 1) id w _ (split (is_neighbour n id i))
  where
    stamped : Node
    stamped = let s = n.nodes_status i in set_status n i (record s { timestamp = stamp n w i })

    split : (b : Bool) → Counted (if b then stamped else n)
    split true = h
    split false = h

pub node_keepalive_res-Counted :
    (n : Node) (w : World) (p : Buf) → Counted n → Counted (node_keepalive_res n w p)
unfolding node_keepalive_res
node_keepalive_res-Counted n w p h = stamp_slots-Counted max_node_num 0 (htons (load_u16 p)) w n h

pub node_req_list-Counted : (n : Node) (p : Buf) → Counted n → Ensures Counted (node_req_list n p)
unfolding node_req_list
node_req_list-Counted n p h = split (find_slot max_node_num 0 n (htons (load_u16 p)) none)
  where
    split :
        (slot : Option ℕ)
        → Ensures Counted (elim slot [ none ↦ ok n | some dst_id ↦ send_res_list n dst_id ])
    split none = h
    split (some i) = kept n _ h (send_res_list-SameSlots n i)

pub node_initial_status-Counted :
    (n : Node) (w : World) (p : Buf) (data_bytes : ℕ)
    → Counted n
    → bit n.connected_nodes parent_id ≡ false
    → Counted (node_initial_status n w p data_bytes)
unfolding node_initial_status
node_initial_status-Counted n w p data_bytes h free =
    parent_set-IsCounted n.current_child_num n.connected_nodes h free

pub node_advertise-Counted :
    (n : Node) (w : World) (p : Buf) (data_bytes : ℕ)
    → Counted n
    → Counted (node_advertise n w p data_bytes)
unfolding node_advertise send_setup renew_dst_ip_and_mac send_packet
node_advertise-Counted n w p data_bytes h = h
