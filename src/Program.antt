-- ===== src/Program.antt =====
-- A whole program: the node and the file together, with the variables that both parts use
-- (src/common/p2p.h, src/common/webm_parser.h). The receive loops of src/peer/main.c and
-- src/originsource/main.c and the sending of blocks work on it.
pub mod Cache
pub mod Receive
pub mod Frame
pub mod Deliver
pub mod Accept
pub mod Relay
pub mod Caught
pub mod Progress
pub mod Gets
pub mod Returns
pub mod Dispatch
pub mod Rounds
pub mod Machine
pub mod Tests
use p2p_live_streming_system.Prelude.{ℕ, ◌≡◌, Option, none, some, Bool, if◌then◌else◌}
use p2p_live_streming_system.Store.{Cluster, Store}
use p2p_live_streming_system.Node.{Node}

-- `fpos_r` is CURRENT_FPOS_R, `current_read_bytes` CURRENT_READ_BYTES. `header_memory` is what
-- WEBM_HEADER.data points to on the origin: `none` is NULL, `some n` a block of n bytes from malloc. (On a
-- peer WriteWebMHeader allocates it, and nothing copies into it later.)
pub record Program : Type 0 where
  pub node : Node
  pub store : Store
  pub fpos_r : ℕ
  pub current_read_bytes : ℕ
  pub is_gateway_mac_get : Bool
  pub header_memory : Option ℕ

-- The `seq` of CURRENT_CLUSTER and of its `prev`.
abbrev pub seqs : Option (Cluster × Cluster) → Option (ℕ × ℕ)
seqs none = none
seqs (some (cluster, prev)) = some (cluster.seq, prev.seq)

-- The shared variables, as a handler of the node left them; CURRENT_CLUSTER is the store's.
abbrev pub with_node : Program → Node → Program
with_node p n = record p {
  node = record n { cluster_seqs = seqs p.store.clusters };
  store =
      (let s = p.store in
        record s {
          current_block = n.current_block;
          total_block_num = n.total_block_num;
          webm_header = n.webm_header;
          timecode_offset = n.timecode_offset;
          node_timecode_offset = n.node_timecode_offset;
          is_get_timecode_offset = n.is_get_timecode_offset;
        });
}

-- The shared variables, as AssembleBlock left them.
abbrev pub with_store : Program → Store → Program
with_store p s = record p {
  store = s;
  node =
      (let n = p.node in
        record n {
          cluster_seqs = seqs s.clusters;
          current_block = s.current_block;
          total_block_num = s.total_block_num;
          webm_header = s.webm_header;
          timecode_offset = s.timecode_offset;
          node_timecode_offset = s.node_timecode_offset;
          is_get_timecode_offset = s.is_get_timecode_offset;
        });
}
