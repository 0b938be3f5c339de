-- ===== src/Wire.antt =====
-- The statuses that peers exchange: `struct BlockInfo` (src/common/webm_parser.h), `struct NodeStatus`
-- (src/common/p2p.h) and the functions that copy them to packets and back.
-- A struct in memory is its fields' bytes in order, with no padding up to the bytes that are copied
-- (18 of a BlockInfo, 30 of a NodeStatus). `padding` and `padding16` are never read or written.
pub mod RoundTrip
mod Tests
use p2p_live_streming_system.Prelude.{ℕ, ◌+◌, ◌*◌, ◌^◌, ◌<◌, List, [], ◌∷◌, ◌++◌, Buf, shift}
use p2p_live_streming_system.Prelude.Int.{ℤ}
use p2p_live_streming_system.Words.{bytes_u16, bytes_u32, load_u16, load_u32, htons, htonl}

pub record BlockInfo : Type 0 where
  pub pos : ℕ
  pub seq : ℕ
  pub bytes : ℕ
  pub total_piece_bytes : ℕ
  pub cluster_seq : ℕ
  pub total_pieces : ℕ
  pub piece_seq : ℕ
  pub status : ℕ
  pub layer : ℕ

-- `struct timeval`: both members are signed.
pub record Timeval : Type 0 where
  pub tv_sec : ℤ
  pub tv_usec : ℤ

pub record NodeStatus : Type 0 where
  pub info : BlockInfo
  pub open info use *
  pub id : ℕ
  pub ipaddr : ℕ
  pub p_ipaddr : ℕ
  pub port : ℕ
  pub timestamp : Timeval

-- The members fit their C types.
pub record IsBlockInfo (b : BlockInfo) : Type 0 where
  pub pos : b.pos < 2 ^ 32
  pub seq : b.seq < 2 ^ 32
  pub bytes : b.bytes < 2 ^ 16
  pub total_piece_bytes : b.total_piece_bytes < 2 ^ 16
  pub cluster_seq : b.cluster_seq < 2 ^ 16
  pub total_pieces : b.total_pieces < 2 ^ 8
  pub piece_seq : b.piece_seq < 2 ^ 8
  pub status : b.status < 2 ^ 8
  pub layer : b.layer < 2 ^ 8

pub record IsNodeStatus (s : NodeStatus) : Type 0 where
  pub info : IsBlockInfo s.info
  pub id : s.id < 2 ^ 16
  pub ipaddr : s.ipaddr < 2 ^ 32
  pub p_ipaddr : s.p_ipaddr < 2 ^ 32
  pub port : s.port < 2 ^ 16

abbrev pub blockinfo_bytes : ℕ
blockinfo_bytes = 18

abbrev pub node_status_bytes : ℕ
node_status_bytes = 30

-- The first 18 bytes of the struct in memory.
abbrev struct_bytes : BlockInfo → List ℕ
struct_bytes b =
    bytes_u32 b.pos
    ++ (bytes_u32 b.seq
        ++ (bytes_u16 b.bytes
            ++ (bytes_u16 b.total_piece_bytes
                ++ (bytes_u16 b.cluster_seq
                    ++ (b.total_pieces ∷ b.piece_seq ∷ b.status ∷ b.layer ∷ [])))))

abbrev struct_load : Buf → BlockInfo
struct_load p = record {
  pos = load_u32 p;
  seq = load_u32 (shift p 4);
  bytes = load_u16 (shift p 8);
  total_piece_bytes = load_u16 (shift p 10);
  cluster_seq = load_u16 (shift p 12);
  total_pieces = p 14;
  piece_seq = p 15;
  status = p 16;
  layer = p 17;
}

-- CopyBlockInfoToBytes: the bytes written at `buf`.
unfoldable pub copy_block_info_to_bytes : BlockInfo → List ℕ
unfolding htons htonl
copy_block_info_to_bytes info = struct_bytes (record info {
  bytes = htons info.bytes;
  pos = htonl info.pos;
  seq = htonl info.seq;
  total_piece_bytes = htons info.total_piece_bytes;
  cluster_seq = htons info.cluster_seq;
})

-- CopyBytesToBlockInfo
unfoldable pub copy_bytes_to_block_info : Buf → BlockInfo
unfolding htons htonl
copy_bytes_to_block_info buf =
    let info = struct_load buf in
    record info {
      bytes = htons info.bytes;
      pos = htonl info.pos;
      seq = htonl info.seq;
      total_piece_bytes = htons info.total_piece_bytes;
      cluster_seq = htons info.cluster_seq;
    }

-- CopyNodeStatusToBytes: the 30 bytes written at `data`.
unfoldable pub copy_node_status_to_bytes : NodeStatus → List ℕ
unfolding copy_block_info_to_bytes
copy_node_status_to_bytes s =
    copy_block_info_to_bytes s.info
    ++ (bytes_u16 (htons s.id)
        ++ (bytes_u32 (htonl s.ipaddr)
            ++ (bytes_u32 (htonl s.p_ipaddr) ++ bytes_u16 (htons s.port))))

-- CopyBytesToNodeStatus: the timestamp of the target stays.
unfoldable pub copy_bytes_to_node_status : NodeStatus → Buf → NodeStatus
unfolding copy_bytes_to_block_info
copy_bytes_to_node_status s p = record s {
  info = copy_bytes_to_block_info p;
  id = htons (load_u16 (shift p 18));
  ipaddr = htonl (load_u32 (shift p 20));
  p_ipaddr = htonl (load_u32 (shift p 24));
  port = htons (load_u16 (shift p 28));
}
