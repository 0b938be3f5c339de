-- ===== src/Node/Send.antt =====
-- The packets that a node sends (src/common/p2p.c: SendSetup to SendResList, SendWebMHeader,
-- SendEndStatus). The buffer `data` of MAX_DATA_BYTES bytes is zeroed, filled from the front and
-- sent up to `data_bytes`.
use p2p_live_streming_system.Prelude.{
  ℕ, zero, suc, ◌+◌, ◌-◌, ◌*◌, ◌/◌, ◌%◌, ◌^◌, List, [], ◌∷◌, ◌++◌, Option, none, some, ◌==◌, ltb,
  if◌then◌else◌, length, take, replicate, not, ◌&&◌,
}
use p2p_live_streming_system.Prelude.Int.{ℤ, pos, negsuc, ◌+ℤ◌, ◌-ℤ◌, ◌*ℤ◌}
use p2p_live_streming_system.Words.{u16, bytes_u16, bytes_u32, htons, htonl}
use p2p_live_streming_system.Wire.{NodeStatus, copy_node_status_to_bytes}
use p2p_live_streming_system.Fault.{Result, ok, err, bad_index, buffer_overflow}
use p2p_live_streming_system.Peers.{list_size}
use p2p_live_streming_system.Node.{
  Node, bit, my_id, tmp_id, parent_id, my_status, max_child_num, send_packet, renew_dst_ip_and_mac,
}

abbrev pub setup_proto : ℕ
setup_proto = 0

abbrev pub block_proto : ℕ
block_proto = 1

abbrev pub initial_status_proto : ℕ
initial_status_proto = 2

abbrev pub advertise_proto : ℕ
advertise_proto = 3

abbrev pub connect_proto : ℕ
connect_proto = 4

abbrev pub depart_proto : ℕ
depart_proto = 5

abbrev pub detach_proto : ℕ
detach_proto = 6

abbrev pub accept_proto : ℕ
accept_proto = 7

abbrev pub unaccept_proto : ℕ
unaccept_proto = 8

abbrev pub req_list_proto : ℕ
req_list_proto = 9

abbrev pub res_list_proto : ℕ
res_list_proto = 10

abbrev pub id_proto : ℕ
id_proto = 11

abbrev pub keepalive_proto : ℕ
keepalive_proto = 12

abbrev pub keepaliveres_proto : ℕ
keepaliveres_proto = 13

-- DATA_HDR_BYTES + BLOCKINFO_BYTES + MAX_BLOCK_BYTES
abbrev pub max_data_bytes : ℕ
max_data_bytes = 1019

-- The conversion of an int to u16.
abbrev pub int_to_u16 : ℤ → ℕ
int_to_u16 (pos n) = n % 2 ^ 16
int_to_u16 (negsuc n) = 2 ^ 16 - 1 - n % 2 ^ 16

-- `content` is what was stored in the buffer; a store or a send beyond its end is a fault.
unfoldable pub send_buffer : Node → List ℕ → ℤ → ℕ → Result Node
send_buffer n content data_bytes dst_id =
    let bytes = int_to_u16 data_bytes in
    if ltb max_data_bytes (length content)
    then err buffer_overflow
    else if ltb max_data_bytes bytes
    then err buffer_overflow
    else ok (send_packet n (take bytes (content ++ replicate max_data_bytes 0)) dst_id)

-- SendSetup
unfoldable pub send_setup : Node → Node
send_setup n =
    let my = my_status n in
    let p_ipaddr = bytes_u32 (htonl my.p_ipaddr) in
    send_packet n
      (if ltb 0 my.id
        then setup_proto ∷ (p_ipaddr ++ (bytes_u16 (htons my.id) ++ bytes_u32 (htonl my.ipaddr)))
        else setup_proto ∷ p_ipaddr)
      parent_id

-- SendID: `ipaddr` and `port` are as the packet held them, in network order.
unfoldable pub send_id : Node → ℕ → ℕ → Node
send_id n ipaddr port =
    let n' = record n { current_node_id = u16 (n.current_node_id + 1) } in
    send_packet (renew_dst_ip_and_mac n' ipaddr (htons port) tmp_id)
      (id_proto ∷ (bytes_u16 (htons n'.current_node_id) ++ bytes_u32 ipaddr)) tmp_id

-- The statuses of the connected slots from `i` on but `except`, with `rounds` to go.
unfoldable pub connected_statuses : ℕ → ℕ → ℕ → Node → List ℕ
connected_statuses zero i except n = []
connected_statuses (suc rounds) i except n =
    (if not (i == except) && bit n.connected_nodes i
      then copy_node_status_to_bytes (n.nodes_status i)
      else [])
    ++ connected_statuses rounds (i + 1) except n

-- `( TIMECODE_OFFSET >> 8*i ) & 0xff` for the eight values of i.
unfoldable pub timecode_bytes : ℕ → ℕ → ℕ → List ℕ
timecode_bytes zero i offset = []
timecode_bytes (suc rounds) i offset =
    (offset / 2 ^ (8 * i) % 256) ∷ timecode_bytes rounds (i + 1) offset

-- SendInitialStatus
unfoldable pub send_initial_status : Node → ℕ → Result Node
send_initial_status n dst_id =
    let parent = if bit n.connected_nodes parent_id then pos 3 else pos 2 in
    let status_num = n.current_child_num +ℤ parent in
    send_buffer n
      (initial_status_proto
        ∷ (timecode_bytes 8 0 n.timecode_offset
            ++ (copy_node_status_to_bytes (n.nodes_status dst_id)
                ++ (copy_node_status_to_bytes (my_status n) ++ connected_statuses 3 0 dst_id n))))
      (pos 1 +ℤ pos 30 *ℤ status_num +ℤ pos 8) dst_id

-- SendAdvertise: an `ad_id` of -1 reads NODES_STATUS before its first entry.
unfoldable pub send_advertise : Node → ℕ → Option ℕ → Result Node
send_advertise n dst_id none = err bad_index
send_advertise n dst_id (some ad_id) =
    send_buffer n
      (advertise_proto
        ∷ (copy_node_status_to_bytes (n.nodes_status ad_id)
            ++ ((if ad_id == my_id then [] else copy_node_status_to_bytes (my_status n))
                ++ connected_statuses 3 0 ad_id n)))
      (pos 1 +ℤ pos 30 *ℤ (n.current_child_num +ℤ pos 1)) dst_id

-- SendConnect sends to TMP_ID, whatever it is given.
unfoldable pub send_connect : Node → ℕ → Node
send_connect n dst_id =
    send_packet n (connect_proto ∷ copy_node_status_to_bytes (my_status n)) tmp_id

-- SendDepart
unfoldable pub send_depart : Node → Node
send_depart n =
    let n' = send_packet n (depart_proto ∷ copy_node_status_to_bytes (my_status n)) parent_id in
    record n' { depart_num = n'.depart_num + 1 }

-- SendDetach: `cluster_seq` is in network order already.
unfoldable pub send_detach : Node → ℕ → ℕ → Node
send_detach n dst_id cluster_seq =
    let n' = send_packet n (detach_proto ∷ bytes_u16 cluster_seq) dst_id in
    record n' { detach_num = n'.detach_num + 1 }

-- SendAccept
unfoldable pub send_accept : Node → ℕ → Node
send_accept n dst_id =
    send_packet n
      (accept_proto
        ∷ (copy_node_status_to_bytes (my_status n) ++ timecode_bytes 8 0 n.timecode_offset))
      dst_id

-- SendUnaccept, SendKeepAlive, SendKeepAliveRes and SendReqList send the node's id.
unfoldable pub send_my_id : Node → ℕ → ℕ → Node
send_my_id n protocol dst_id = send_packet n (protocol ∷ bytes_u16 (htons (my_status n).id)) dst_id

abbrev pub send_unaccept : Node → ℕ → Node
send_unaccept n dst_id = send_my_id n unaccept_proto dst_id

abbrev pub send_keepalive : Node → ℕ → Node
send_keepalive n dst_id = send_my_id n keepalive_proto dst_id

abbrev pub send_keepalive_res : Node → ℕ → Node
send_keepalive_res n dst_id = send_my_id n keepaliveres_proto dst_id

abbrev pub send_req_list : Node → ℕ → Node
send_req_list n dst_id = send_my_id n req_list_proto dst_id

-- The second loop of SendResList: the entries but those with the id of the requesting node, and how
-- many were left out.
unfoldable pub list_statuses : ℕ → List NodeStatus → List ℕ × ℕ
list_statuses id [] = ([], 0)
list_statuses id (s ∷ l) =
    let (rest, skipped) = list_statuses id l in
    if s.id == id then (rest, skipped + 1) else (copy_node_status_to_bytes s ++ rest, skipped)

-- SendResList
unfoldable pub send_res_list : Node → ℕ → Result Node
send_res_list n dst_id =
    let (entries, skipped) = list_statuses (n.nodes_status dst_id).id n.nodes_list in
    let status_num = n.current_child_num -ℤ pos 1 +ℤ pos (list_size n.nodes_list) -ℤ pos skipped in
    send_buffer n (res_list_proto ∷ (connected_statuses max_child_num 0 dst_id n ++ entries))
      (pos 1 +ℤ pos 30 *ℤ status_num) dst_id

-- SendWebMHeader: behind the protocol byte stands an info of zeros.
unfoldable pub send_webm_header : Node → ℕ → Result Node
send_webm_header n dst_id =
    send_buffer n (block_proto ∷ (replicate 18 0 ++ n.webm_header))
      (pos (length n.webm_header + 19)) dst_id

-- SendEndStatus
unfoldable pub send_end_status : Node → ℕ → Node
send_end_status n dst_id = send_packet n (block_proto ∷ replicate 18 0xff) dst_id
