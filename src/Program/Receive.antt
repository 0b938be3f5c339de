-- ===== src/Program/Receive.antt =====
-- One round of the receive loops (Receive in src/peer/main.c and in src/originsource/main.c).
use p2p_live_streming_system.Prelude.{
  ℕ, ◌+◌, List, [], ◌∷◌, some, true, not, ◌&&◌, ◌==◌, if◌then◌else◌, Buf,
}
use p2p_live_streming_system.Packet.{ignored, arp, datagram, receive, handler_data}
use p2p_live_streming_system.Fault.{Result, ok, ◌>>=◌}
use p2p_live_streming_system.Store.{Store, init_cluster}
use p2p_live_streming_system.Store.Assemble.{running, finished, is_run, assemble_block}
use p2p_live_streming_system.Node.{Node, World}
use p2p_live_streming_system.Node.Send.{
  setup_proto, block_proto, initial_status_proto, advertise_proto, connect_proto, depart_proto,
  detach_proto, accept_proto, unaccept_proto, req_list_proto, res_list_proto, id_proto,
  keepalive_proto, keepaliveres_proto, send_id,
}
use p2p_live_streming_system.Node.Join.{node_setup, node_id, node_initial_status, node_advertise}
use p2p_live_streming_system.Node.Reconnect.{
  node_connect, node_depart, node_detach, node_accept, node_unaccept,
}
use p2p_live_streming_system.Node.Exchange.{
  node_keepalive, node_keepalive_res, node_req_list, node_res_list,
}
use p2p_live_streming_system.Program.{Program, with_node, with_store}
use p2p_live_streming_system.Program.Cache.{send_mul_stream}

-- What a round leaves: a program that goes on, or the file with which AssembleBlock ends it.
pub data Outcome : Type 0 where
  goes_on : Program → Outcome
  ended : Store → Outcome

-- An `if … else if` chain on one number: the value of the first entry with it, or the last value.
unfoldable pub select {ℓ} : {A : Type ℓ} → ℕ → List (ℕ × A) → A → A
select k [] v = v
select k ((key, value) ∷ l) v = if k == key then value else select k l v

-- A handler of the node, in the program.
abbrev pub handled : Program → Result Node → Result Outcome
handled p r = do n ← r; ok (goes_on (with_node p n))

-- What malloc gives InitCluster; the two `seq` are those that NodeInitialStatus has.
abbrev cluster_junk : World → ℕ → ℕ
cluster_junk w i = if i == 1 then w.junk 0 else if i == 4 then w.junk 1 else w.junk (i + 2)

-- NodeInitialStatus, with InitCluster.
abbrev pub handle_initial_status : Program → World → Buf → ℕ → Program
handle_initial_status p w recv_data data_bytes =
    with_node
      (record p {
        store = (let s = p.store in record s { clusters = some (init_cluster (cluster_junk w)) });
      })
      (node_initial_status p.node w recv_data data_bytes)

-- AssembleBlock in the program.
abbrev pub handle_block : Program → Buf → ℕ → Result Outcome
handle_block p recv_data data_bytes = do
  assembled ← assemble_block p.store recv_data data_bytes
  elim assembled [ running s ↦ ok (goes_on (with_store p s)) | finished s ↦ ok (ended s) ]

-- The dispatch of a peer on the protocol byte.
unfoldable pub peer_dispatch : Program → World → Buf → ℕ → ℕ → ℕ → ℕ → Result Outcome
peer_dispatch p w recv_data protocol data_bytes saddr source =
    let n = p.node in
    select protocol
      ((setup_proto, handled p (node_setup n w recv_data saddr source))
        ∷ (id_proto, handled p (ok (node_id n recv_data)))
        ∷ (initial_status_proto, ok (goes_on (handle_initial_status p w recv_data data_bytes)))
        ∷ (advertise_proto, handled p (ok (node_advertise n w recv_data data_bytes)))
        ∷ (block_proto, handle_block p recv_data data_bytes)
        ∷ (connect_proto, handled p (node_connect n w recv_data))
        ∷ (depart_proto, handled p (ok (node_depart n w recv_data)))
        ∷ (detach_proto, handled p (node_detach n w recv_data))
        ∷ (req_list_proto, handled p (node_req_list n recv_data))
        ∷ (res_list_proto, handled p (ok (node_res_list n recv_data data_bytes)))
        ∷ (accept_proto, handled p (ok (node_accept n w recv_data)))
        ∷ (unaccept_proto, handled p (node_unaccept n recv_data))
        ∷ (keepalive_proto, handled p (ok (node_keepalive n recv_data)))
        ∷ (keepaliveres_proto, handled p (ok (node_keepalive_res n w recv_data)))
        ∷ [])
      (ok (goes_on p))

-- The dispatch of the origin: a SETUP of four bytes gets an id first, and BLOCK, RES_LIST, ACCEPT and
-- UNACCEPT are only printed.
unfoldable pub origin_dispatch : Program → World → Buf → ℕ → ℕ → ℕ → ℕ → Result Outcome
origin_dispatch p w recv_data protocol data_bytes saddr source =
    let n = p.node in
    select protocol
      ((
        setup_proto,
        handled p (
            node_setup (if data_bytes == 4 then send_id n saddr source else n) w recv_data saddr
              source),
      )
        ∷ (initial_status_proto, ok (goes_on (handle_initial_status p w recv_data data_bytes)))
        ∷ (advertise_proto, handled p (ok (node_advertise n w recv_data data_bytes)))
        ∷ (block_proto, ok (goes_on p))
        ∷ (connect_proto, handled p (node_connect n w recv_data))
        ∷ (depart_proto, handled p (ok (node_depart n w recv_data)))
        ∷ (detach_proto, handled p (node_detach n w recv_data))
        ∷ (req_list_proto, handled p (node_req_list n recv_data))
        ∷ (res_list_proto, ok (goes_on p))
        ∷ (accept_proto, ok (goes_on p))
        ∷ (unaccept_proto, ok (goes_on p))
        ∷ (keepalive_proto, handled p (ok (node_keepalive n recv_data)))
        ∷ (keepaliveres_proto, handled p (ok (node_keepalive_res n w recv_data)))
        ∷ [])
      (ok (goes_on p))

-- An ARP frame: the sender of the first that is not a broadcast is the gateway.
unfoldable pub receive_arp : Program → Buf → Program
receive_arp p packet =
    if not (is_run 6 0xff packet) && not p.is_gateway_mac_get
    then record p {
      is_gateway_mac_get = true;
      node =
          (let n = p.node in
            record n {
              gateway_mac = record {
                m0 = packet 6;
                m1 = packet 7;
                m2 = packet 8;
                m3 = packet 9;
                m4 = packet 10;
                m5 = packet 11;
              };
            });
    }
    else p

abbrev pub os_port : ℕ
os_port = 12345

-- A frame at a peer and at the origin, up to the end of the dispatch.
unfoldable pub peer_frame : Program → World → Buf → Result Outcome
peer_frame p w packet = elim (receive p.node.source.ip p.node.source.port packet) [
  | ignored ↦ ok (goes_on p)
  | arp ↦ ok (goes_on (receive_arp p packet))
  | datagram protocol data_bytes saddr source ↦
      peer_dispatch p w (handler_data packet) protocol data_bytes saddr source
]

unfoldable pub origin_frame : Program → World → Buf → Result Outcome
origin_frame p w packet = elim (receive p.node.source.ip os_port packet) [
  | ignored ↦ ok (goes_on p)
  | arp ↦ ok (goes_on (receive_arp p packet))
  | datagram protocol data_bytes saddr source ↦
      origin_dispatch p w (handler_data packet) protocol data_bytes saddr source
]

-- The end of a peer's round.
abbrev pub stream_if_playing : Buf → Outcome → Result Outcome
stream_if_playing old (goes_on p) =
    if p.node.is_begin_playing
    then (send_mul_stream old p >>= λ (q, ret). ok (goes_on q))
    else ok (goes_on p)
stream_if_playing old (ended s) = ok (ended s)

-- One round of Receive of a peer.
unfoldable pub peer_round : Buf → Program → World → Buf → Result Outcome
peer_round old p w packet = peer_frame p w packet >>= stream_if_playing old
