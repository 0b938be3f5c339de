-- ===== src/Node.antt =====
-- The state of a program (the global variables of src/common/p2p.h and src/common/webm_parser.h that the
-- protocol uses) and the slots for its neighbours.
-- `parent_id` and the two children's slots index CONNECTED_NODES, NODES_STATUS and DST_*;
-- slot 3 is MY_ID in NODES_STATUS and TMP_ID in DST_*.
pub mod Slots
pub mod Send
pub mod Join
pub mod Reconnect
pub mod Exchange
pub mod Count
pub mod Frame
pub mod Invariant
pub mod Steps
pub mod Machine
pub mod Faults
pub mod Initial
pub mod Timer
pub mod Tests
use p2p_live_streming_system.Prelude.{
  ℕ, zero, suc, ◌+◌, ◌-◌, ◌*◌, ◌/◌, ◌%◌, ◌^◌, List, [], ◌∷◌, ◌++◌, Option, none, some, Bool, true,
  false, ◌==◌, if◌then◌else◌,
}
use p2p_live_streming_system.Prelude.Int.{ℤ, pos, negsuc, ◌+ℤ◌, ◌-ℤ◌}
use p2p_live_streming_system.Words.{u8}
use p2p_live_streming_system.Wire.{BlockInfo, NodeStatus, Timeval}
use p2p_live_streming_system.Block.{Block}
use p2p_live_streming_system.Packet.{Endpoint, Mac, packet_generate}
use p2p_live_streming_system.Fault.{Result, ok, err, null_pointer}
use p2p_live_streming_system.Time.{update_timestamp}

abbrev pub max_child_num : ℕ
max_child_num = 2

abbrev pub max_node_num : ℕ
max_node_num = 4

abbrev pub parent_id : ℕ
parent_id = 2

abbrev pub tmp_id : ℕ
tmp_id = 3

abbrev pub my_id : ℕ
my_id = 3

abbrev pub origin_id : ℕ
origin_id = 0

abbrev pub default_cache : ℕ
default_cache = 200

-- (u32)(DEFAULT_CACHE * 0.8)
abbrev pub cache_tlv : ℕ
cache_tlv = 160

-- What a handler gets from outside: the values of `gettimeofday` at the places that read the clock, of
-- `rand`, what uninitialised variables and fresh memory hold, and what the compiled code gives for
-- `byte << count` where the int overflows.
pub record World : Type 0 where
  pub now : ℕ → Timeval
  pub rand : ℕ → ℕ
  pub junk : ℕ → ℕ
  pub wide_shift : ℕ → ℕ → ℕ

pub record Node : Type 0 where
  pub source : Endpoint
  pub dst : ℕ → Endpoint
  pub gateway_mac : Mac
  pub is_setup : Bool
  pub current_child_num : ℤ
  pub connected_nodes : ℕ
  pub is_begin_streaming : Bool
  pub is_begin_playing : Bool
  pub is_retry : Bool
  pub nodes_status : ℕ → NodeStatus
  pub nodes_list : List NodeStatus
  pub except_list : List ℕ
  pub current_cache : ℤ
  pub total_buffer : ℕ
  pub played_buffer : ℕ
  pub current_node_id : ℕ
  -- CURRENT_CLUSTER: its `seq` and that of its `prev`; `none` is NULL.
  pub cluster_seqs : Option (ℕ × ℕ)
  pub current_block : Block
  pub child_block : ℕ → Block
  pub webm_header : List ℕ
  pub timecode_offset : ℕ
  pub node_timecode_offset : ℕ
  pub is_get_timecode_offset : Bool
  pub total_block_num : ℕ
  pub start_timestamp : Timeval
  pub timestamp : Timeval
  pub setup_timestamp : Timeval
  pub listupdate_timestamp : Timeval
  pub depart_timestamp : Timeval
  pub retry_timestamp : Timeval
  pub played_timestamp : Timeval
  pub depart_num : ℕ
  pub detach_num : ℕ
  -- The frames written to the socket, the latest last.
  pub sent : List (List ℕ)

-- An array with one entry written.
unfoldable pub update {ℓ} : {A : Type ℓ} → (ℕ → A) → ℕ → A → ℕ → A
update f i v j = if i == j then v else f j

-- `(CONNECTED_NODES >> i) & 0x01`
abbrev pub bit : ℕ → ℕ → Bool
bit connected i = connected / 2 ^ i % 2 == 1

-- `CONNECTED_NODES += (0x01 << i)` and `-=`, in a u8.
abbrev pub set_bit : ℕ → ℕ → ℕ
set_bit connected i = u8 (connected + 2 ^ i)

abbrev pub clear_bit : ℕ → ℕ → ℕ
clear_bit connected i = u8 (connected + 2 ^ 8 - 2 ^ i)

abbrev pub my_status : Node → NodeStatus
my_status n = n.nodes_status my_id

abbrev pub parent_status : Node → NodeStatus
parent_status n = n.nodes_status parent_id

abbrev pub set_status : Node → ℕ → NodeStatus → Node
set_status n i s = record n { nodes_status = update n.nodes_status i s }

-- CURRENT_CLUSTER dereferenced.
abbrev pub the_cluster : Node → Result (ℕ × ℕ)
the_cluster n = elim n.cluster_seqs [ none ↦ err null_pointer | some c ↦ ok c ]

-- UpdateTimestamp at the `k`-th reading of the clock.
abbrev pub stamp : Node → World → ℕ → Timeval
stamp n w k = update_timestamp n.start_timestamp (w.now k)

-- RenewDstIPandMAC; `inet_pton` of the text that `inet_ntoa` made is the address again.
unfoldable pub renew_dst_ip_and_mac : Node → ℕ → ℕ → ℕ → Node
renew_dst_ip_and_mac n ip port dst_id = record n {
  dst = update n.dst dst_id (record { mac = n.gateway_mac; ip = ip; port = port });
}

-- SendPacket
unfoldable pub send_packet : Node → List ℕ → ℕ → Node
send_packet n bytes dst_id = record n {
  sent = n.sent ++ (packet_generate n.source (n.dst dst_id) bytes ∷ []);
}
