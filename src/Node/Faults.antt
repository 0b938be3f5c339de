-- ===== src/Node/Faults.antt =====
-- NodeConnect, NodeUnaccept and NodeDepart at the edges of what they test (src/common/p2p.c).
use p2p_live_streming_system.Prelude.{
  ℕ, zero, suc, Bool-cases, inl, inr, [], ◌%◌, ◌^◌, ◌≤◌, ◌≡◌, ◌≢◌, refl, ap, ◌∙◌, List, ◌∷◌, Option,
  some, none, Bool, true, false, ltb, ◌==◌, ==_iff, if◌then◌else◌, arith, Buf,
}
use p2p_live_streming_system.Prelude.Int.{pos, ◌-ℤ◌, ltb_ℤ}
use p2p_live_streming_system.Words.{htons, htonl, load_u16}
use p2p_live_streming_system.Wire.{NodeStatus, copy_bytes_to_node_status}
use p2p_live_streming_system.Fault.{Result, ok, err, bad_index, endless_loop, ◌>>=◌}
use p2p_live_streming_system.Peers.{get_list, get_list_loop, except_list_push}
use p2p_live_streming_system.Node.{
  Node, World, bit, tmp_id, my_status, default_cache, renew_dst_ip_and_mac, send_packet,
}
use p2p_live_streming_system.Node.Slots.{check_child_num, free_loop, is_duplicated_child}
use p2p_live_streming_system.Node.Send.{send_detach, send_unaccept}
use p2p_live_streming_system.Node.Reconnect.{node_connect, node_depart, depart_round, connect_child}

duplicated-bad_index :
    (n : Node) (id : ℕ)
    → bit n.connected_nodes 0 ≡ true
    → 4 ≤ id
    → is_duplicated_child n id ≡ err bad_index
unfolding is_duplicated_child
duplicated-bad_index n id first large = rw (first, beyond) refl
  where
    beyond : ltb id 4 ≡ false
    beyond = ground arith

second_free :
    (n : Node)
    → n.current_child_num ≡ pos 1
    → bit n.connected_nodes 0 ≡ true
    → bit n.connected_nodes 1 ≡ false
    → check_child_num n ≡ some 1
unfolding check_child_num free_loop
second_free n one first second = rw (one, first, second) refl

-- NodeConnect on a node with a cache of 200 or more and one child, connected in the first slot: if the
-- id that asks is 4 or more, IsDuplicatedChild reads beyond NODES_STATUS.
pub node_connect-bad_index :
    (n : Node) (w : World) (p : Buf)
    → ltb_ℤ n.current_cache (pos default_cache) ≡ false
    → n.current_child_num ≡ pos 1
    → bit n.connected_nodes 0 ≡ true
    → bit n.connected_nodes 1 ≡ false
    → 4 ≤ (copy_bytes_to_node_status (my_status n) p).id
    → node_connect n w p ≡ err bad_index
unfolding node_connect
node_connect-bad_index n w p old one first second large =
    go _ _ _ old (second_free n one first second) (duplicated-bad_index n status.id first large)
  where
    status : NodeStatus
    status = copy_bytes_to_node_status (my_status n) p

    refused : Node
    refused = send_unaccept (renew_dst_ip_and_mac n (htonl status.ipaddr) status.port tmp_id) tmp_id

    go :
        (young : Bool) (slot : Option ℕ) (duplicated : Result Bool)
        → young ≡ false
        → slot ≡ some 1
        → duplicated ≡ err bad_index
        → (if young then ok refused else elim slot [
          | none ↦ ok refused
          | some child_id ↦
              (duplicated >>= λ d. ok (if d then n else connect_child n w p status child_id))
        ])
          ≡ err bad_index
    go young slot duplicated a b c = rw (a, b, c)

-- The loop of GetList never ends on a list that begins with another id, for any number of rounds.
stuck :
    (fuel : ℕ) (s : NodeStatus) (l : List NodeStatus) (id : ℕ)
    → s.id ≢ id
    → get_list_loop fuel (s ∷ l) id ≡ none
unfolding get_list_loop
stuck zero s l id other = refl
stuck (suc fuel) s l id other = ground (arith, stuck fuel s l id other)

-- If the loop has not ended after the rounds that GetList is given, it does not end.
get_list_loop-stuck :
    (l : List NodeStatus) (id : ℕ)
    → get_list l id ≡ err endless_loop
    → (fuel : ℕ) → get_list_loop fuel l id ≡ none
unfolding get_list get_list_loop
get_list_loop-stuck [] id e fuel = absurd (ground (arith, e))
get_list_loop-stuck (s ∷ l) id e fuel = elim (Bool-cases (s.id == id)) [
  | inl same ↦ absurd (ground (arith, e, same))
  | inr other ↦ stuck fuel s l id (ground (arith, other))
]

-- The ids that NodeUnaccept does not try, the one of the packet among them.
abbrev pub excepted : Node → Buf → List ℕ
excepted n p = except_list_push (my_status n).id n.except_list (htons (load_u16 p))

hit :
    (id : ℕ) (n : Node) (cluster_seq : ℕ)
    → (n.nodes_status 0).id ≡ id
    → let m = (depart_round id (n, cluster_seq) 0).0 in
      (m.current_child_num ≡ n.current_child_num -ℤ pos 1) × (m.nodes_status ≡ n.nodes_status)
hit id n cluster_seq e = rw ((==_iff (n.nodes_status 0).id id).1 e) (refl, refl)

miss :
    (id : ℕ) (n : Node) (cluster_seq : ℕ)
    → (n.nodes_status 1).id ≢ id
    → let m = (depart_round id (n, cluster_seq) 1).0 in
      (m.current_child_num ≡ n.current_child_num) × (m.nodes_status ≡ n.nodes_status)
miss id n cluster_seq e = rw apart (refl, refl)
  where
    apart : ((n.nodes_status 1).id == id) ≡ false
    apart = ground arith

departed :
    (n : Node) (w : World) (p : Buf)
    → let id = (copy_bytes_to_node_status (my_status n) p).id in
      (n.nodes_status 0).id ≡ id
      → (n.nodes_status 1).id ≢ id
      → ((node_depart n w p).current_child_num ≡ n.current_child_num -ℤ pos 1)
        × ((node_depart n w p).nodes_status ≡ n.nodes_status)
unfolding node_depart send_detach renew_dst_ip_and_mac send_packet
departed n w p same other =
    let id = (copy_bytes_to_node_status (my_status n) p).id in
    let (count, statuses) = hit id n (w.junk 0 % 2 ^ 16) same in
    let m = depart_round id (n, w.junk 0 % 2 ^ 16) 0 in
    let (count', statuses') = miss id m.0 m.1 (rw statuses other) in
    (count' ∙ count, statuses' ∙ statuses)

-- NodeDepart, twice, on an id that stands in the first slot and not in the second: since the
-- status stays there, the count of the children goes down twice.
pub node_depart-twice :
    (n : Node) (w v : World) (p : Buf)
    → let id = (copy_bytes_to_node_status (my_status n) p).id in
      (n.nodes_status 0).id ≡ id
      → (n.nodes_status 1).id ≢ id
      → (node_depart (node_depart n w p) v p).current_child_num
        ≡ n.current_child_num -ℤ pos 1 -ℤ pos 1
node_depart-twice n w v p same other =
    let (count, statuses) = departed n w p same other in
    (departed (node_depart n w p) v p (rw statuses same) (rw statuses other)).0
    ∙ ap (λ c. c -ℤ pos 1) count
