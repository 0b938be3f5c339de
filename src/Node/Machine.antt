-- ===== src/Node/Machine.antt =====
-- A node as the state machine of its handlers (the dispatch of src/peer/main.c and
-- src/originsource/main.c on the protocol byte), with what the handlers rely on and do not test.
use p2p_live_streming_system.Prelude.{ℕ, ◌≡◌, true, false, Buf}
use p2p_live_streming_system.Wire.{copy_bytes_to_node_status}
use p2p_live_streming_system.Fault.{Result, ok, Ensures}
use p2p_live_streming_system.Node.{Node, World, bit, parent_id, my_status}
use p2p_live_streming_system.Node.Join.{node_setup, node_id, node_initial_status, node_advertise}
use p2p_live_streming_system.Node.Reconnect.{
  node_connect, node_depart, node_detach, node_accept, node_unaccept, node_retry,
}
use p2p_live_streming_system.Node.Exchange.{
  node_keepalive, node_keepalive_res, node_req_list, node_res_list,
}
use p2p_live_streming_system.Node.Invariant.{Counted, node_setup-Counted}
use p2p_live_streming_system.Node.Steps.{
  Connected, node_connect-Counted, node_depart-Counted, node_detach-Counted, node_accept-Counted,
  node_unaccept-Counted, node_retry-Counted, node_keepalive-Counted, node_keepalive_res-Counted,
  node_req_list-Counted, node_initial_status-Counted, node_advertise-Counted,
}

-- One packet, or one NodeRetry. Statuses arrive only at a node without a parent, a departing id
-- stands only in connected slots, and a detach arrives only from a parent that is connected.
pub data Step (n : Node) : Node → Type 0 where
  setup :
      (w : World) (p : Buf) (ipaddr port : ℕ) (m : Node)
      → node_setup n w p ipaddr port ≡ ok m
      → Step n m
  identity : (p : Buf) → Step n (node_id n p)
  initial_status :
      (w : World) (p : Buf) (data_bytes : ℕ)
      → bit n.connected_nodes parent_id ≡ false
      → Step n (node_initial_status n w p data_bytes)
  advertise : (w : World) (p : Buf) (data_bytes : ℕ) → Step n (node_advertise n w p data_bytes)
  connect : (w : World) (p : Buf) (m : Node) → node_connect n w p ≡ ok m → Step n m
  depart :
      (w : World) (p : Buf)
      → Connected n (copy_bytes_to_node_status (my_status n) p).id
      → Step n (node_depart n w p)
  detach :
      (w : World) (p : Buf) (m : Node)
      → bit n.connected_nodes parent_id ≡ true
      → node_detach n w p ≡ ok m
      → Step n m
  accept : (w : World) (p : Buf) → Step n (node_accept n w p)
  unaccept : (p : Buf) (m : Node) → node_unaccept n p ≡ ok m → Step n m
  retry : (w : World) (m : Node) → node_retry n w ≡ ok m → Step n m
  keepalive : (p : Buf) → Step n (node_keepalive n p)
  keepalive_res : (w : World) (p : Buf) → Step n (node_keepalive_res n w p)
  req_list : (p : Buf) (m : Node) → node_req_list n p ≡ ok m → Step n m
  res_list : (p : Buf) (data_bytes : ℕ) → Step n (node_res_list n p data_bytes)

-- A run of the node.
pub data Steps (n : Node) : Node → Type 0 where
  done : Steps n n
  more : (m k : Node) → Steps n m → Step m k → Steps n k

returned : (r : Result Node) (m : Node) → r ≡ ok m → Ensures Counted r → Counted m
returned r m e h = rw e at h

Step-Counted : (n m : Node) → Step n m → Counted n → Counted m
unfolding node_id node_res_list
Step-Counted n _ (setup w p ipaddr port m e) h =
    returned _ m e (node_setup-Counted n w p ipaddr port h)
Step-Counted n _ (identity p) h = h
Step-Counted n _ (initial_status w p data_bytes free) h =
    node_initial_status-Counted n w p data_bytes h free
Step-Counted n _ (advertise w p data_bytes) h = node_advertise-Counted n w p data_bytes h
Step-Counted n _ (connect w p m e) h = returned _ m e (node_connect-Counted n w p h)
Step-Counted n _ (depart w p c) h = node_depart-Counted n w p h c
Step-Counted n _ (detach w p m parent e) h = returned _ m e (node_detach-Counted n w p h parent)
Step-Counted n _ (accept w p) h = node_accept-Counted n w p h
Step-Counted n _ (unaccept p m e) h = returned _ m e (node_unaccept-Counted n p h)
Step-Counted n _ (retry w m e) h = returned _ m e (node_retry-Counted n w h)
Step-Counted n _ (keepalive p) h = node_keepalive-Counted n p h
Step-Counted n _ (keepalive_res w p) h = node_keepalive_res-Counted n w p h
Step-Counted n _ (req_list p m e) h = returned _ m e (node_req_list-Counted n p h)
Step-Counted n _ (res_list p data_bytes) h = h

-- Along every run of the handlers that starts with a right count, CURRENT_CHILD_NUM is the number of
-- children whose bit is set in CONNECTED_NODES, and no bit is set beyond the parent's, if an initial
-- status arrives only at a node without a parent, a departing id stands only in slots that are
-- connected, and a detach arrives only at a node with a parent.
pub Steps-Counted : (n m : Node) → Steps n m → Counted n → Counted m
Steps-Counted n _ done h = h
Steps-Counted n k (more m _ run step) h = Step-Counted m k step (Steps-Counted n m run h)
