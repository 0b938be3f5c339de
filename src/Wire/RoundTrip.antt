-- ===== src/Wire/RoundTrip.antt =====
-- Statuses written to a packet and read from it (src/common/p2p.c, src/common/webm_parser.c).
use p2p_live_streming_system.Prelude.{
  ℕ, ◌/◌, ◌%◌, ◌≡◌, refl, List, [], ◌∷◌, ◌++◌, arith, Buf, at, read, length, All, IsByte,
}
use p2p_live_streming_system.Wire.{
  BlockInfo, NodeStatus, IsBlockInfo, IsNodeStatus, node_status_bytes, copy_block_info_to_bytes,
  copy_bytes_to_block_info, copy_node_status_to_bytes, copy_bytes_to_node_status,
}

-- An info whose members fit their types, written by CopyBlockInfoToBytes, is read back by
-- CopyBytesToBlockInfo, whatever follows it in the packet.
pub block_info_round_trip :
    (b : BlockInfo) (rest : List ℕ)
    → IsBlockInfo b
    → copy_bytes_to_block_info (at (copy_block_info_to_bytes b ++ rest)) ≡ b
unfolding copy_block_info_to_bytes copy_bytes_to_block_info
block_info_round_trip b rest h = ground arith

-- A status whose members fit their types, written by CopyNodeStatusToBytes, is read back by
-- CopyBytesToNodeStatus in every member but the timestamp, which stays the receiver's own.
pub node_status_round_trip :
    (s old : NodeStatus) (rest : List ℕ)
    → IsNodeStatus s
    → copy_bytes_to_node_status old (at (copy_node_status_to_bytes s ++ rest))
      ≡ record s { timestamp = old.timestamp }
unfolding copy_node_status_to_bytes copy_bytes_to_node_status
node_status_round_trip s old rest h = ground arith

-- Conversely, any 30 bytes that are read as a status are written back unchanged, so that a status
-- which a peer passes on arrives as its owner sent it.
pub node_status_forward :
    (s : NodeStatus) (p : Buf)
    → All IsByte (read node_status_bytes p)
    → copy_node_status_to_bytes (copy_bytes_to_node_status s p) ≡ read node_status_bytes p
unfolding copy_node_status_to_bytes copy_bytes_to_node_status
node_status_forward s p h = ground arith

-- A word in network byte order, its highest byte first.
abbrev big_endian_u16 : ℕ → List ℕ
big_endian_u16 v = (v / 256 % 256) ∷ (v % 256) ∷ []

abbrev big_endian_u32 : ℕ → List ℕ
big_endian_u32 v = (v / 16777216 % 256) ∷ (v / 65536 % 256) ∷ (v / 256 % 256) ∷ (v % 256) ∷ []

-- On the wire a status is its members in the order of the struct, each word big-endian.
pub node_status_network_order :
    (s : NodeStatus)
    → copy_node_status_to_bytes s
      ≡ big_endian_u32 s.pos
        ++ big_endian_u32 s.seq
        ++ big_endian_u16 s.bytes
        ++ big_endian_u16 s.total_piece_bytes
        ++ big_endian_u16 s.cluster_seq
        ++ (s.total_pieces ∷ s.piece_seq ∷ s.status ∷ s.layer ∷ [])
        ++ big_endian_u16 s.id
        ++ big_endian_u32 s.ipaddr
        ++ big_endian_u32 s.p_ipaddr
        ++ big_endian_u16 s.port
unfolding copy_node_status_to_bytes
node_status_network_order s = ground arith

pub length-copy_node_status_to_bytes : (s : NodeStatus) → length (copy_node_status_to_bytes s) ≡ 30
unfolding copy_node_status_to_bytes
length-copy_node_status_to_bytes s = refl
