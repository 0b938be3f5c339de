-- ===== src/Store/Recording.antt =====
-- What the file of a peer is to be, without positions and sizes to be patched (the contract of
-- AssembleBlock in src/common/webm_parser.c): a part that is final, and the data of the cluster that
-- is being written.
use p2p_live_streming_system.Prelude.{
  ℕ, zero, suc, ◌+◌, ◌-◌, ◌*◌, ◌/◌, ◌%◌, ◌^◌, ltb, take, [], ◌≤◌, ◌≡◌, List, ◌∷◌, ◌++◌, some, Bool,
  if◌then◌else◌, length, ◌==◌, Buf, shift, read,
}
use p2p_live_streming_system.Words.{u64}
use p2p_live_streming_system.Ebml.{Chank, get_chank, timecode_id}
use p2p_live_streming_system.Ebml.Header.{cluster_header}
use p2p_live_streming_system.Ebml.Length.{big_endian}
use p2p_live_streming_system.Wire.{BlockInfo, copy_bytes_to_block_info}
use p2p_live_streming_system.Fault.{Result, ok, err, buffer_overflow, exited}
use p2p_live_streming_system.Store.{Cluster, Store, block_bytes}
use p2p_live_streming_system.Store.Assemble.{packet_room}

pub record Recording : Type 0 where
  pub closed : List ℕ
  pub payload : List ℕ

-- The file once the size of the last cluster is written: its header has the exact size of its data.
abbrev pub finish : Recording → List ℕ
finish r = r.closed ++ (cluster_header (length r.payload) ++ r.payload)

-- The next block, in a new cluster or behind the block before.
abbrev pub add_block : Bool → List ℕ → Recording → Recording
add_block new bytes r =
    if new
    then record { closed = finish r; payload = bytes }
    else record { closed = r.closed; payload = r.payload ++ bytes }

-- The file stands for a recording: the size of the last cluster may be out of date, but the members
-- of CURRENT_CLUSTER, with the block that is not counted yet, have what it must become.
pub record Represents (r : Recording) (s : Store) (cluster prev : Cluster) (size : List ℕ)
    : Type 0 where
  pub clusters : s.clusters ≡ some (cluster, prev)
  pub file : s.file ≡ r.closed ++ (0x1f ∷ 0x43 ∷ 0xb6 ∷ 0x75 ∷ 0x01 ∷ (size ++ r.payload))
  pub size_length : length size ≡ 7
  pub position : s.position ≡ length s.file
  pub pos : cluster.pos ≡ length r.closed
  pub id_bytes : cluster.info.id_bytes ≡ 4
  pub data_bytes : cluster.info.data_bytes + block_bytes s s.current_block_num ≡ length r.payload
  pub pending : s.current_block_num ≤ 1

-- A number as `n` bytes, highest first.
unfoldable pub spelled : ℕ → ℕ → List ℕ
spelled zero v = []
spelled (suc n) v = (v / 2 ^ (8 * n) % 256) ∷ spelled n v

-- The time code of a cluster as the peer writes it: how long after the first one that it got, as a
-- u64, where the time codes are those of the sender plus NODE_TIMECODE_OFFSET. The first one is 0.
abbrev pub relative_time : Store → ℕ → ℕ
relative_time s time =
    if s.is_get_timecode_offset
    then u64 (time + s.node_timecode_offset + 2 ^ 64 - s.timecode_offset)
    else 0

-- The first `n` bytes, with the `k` bytes from `place` on replaced by a number.
abbrev pub replaced : ℕ → Buf → ℕ → ℕ → ℕ → List ℕ
replaced n p place k v = take n (read place p ++ (spelled k v ++ read n (shift p (place + k))))

-- The data of the first block of a cluster, whose element at the start is `c`: the number in it, which
-- is the time code, is replaced. The program ends where it is no time code, or where the number
-- reaches beyond the packet buffer.
abbrev pub first_data : Store → ℕ → Buf → Chank → Result (List ℕ)
first_data s n p c =
    if c.id == timecode_id
    then (if ltb packet_room (c.data_header_position + c.data_bytes)
        then err buffer_overflow
        else ok (
            replaced n p c.data_header_position c.data_bytes
              (relative_time s (u64 (big_endian c.data_bytes (shift p c.data_header_position) 0)))))
    else err exited

-- What is written of a block: its data as received, with the time code replaced in the first block of
-- a cluster.
abbrev pub block_data : Store → Buf → Result (List ℕ)
block_data s p =
    let info = copy_bytes_to_block_info p in
    if info.seq == 1
    then first_data s info.bytes (shift p 18) (get_chank (shift p 18))
    else ok (read info.bytes (shift p 18))

-- The store has taken the block `info` into the recording.
pub record Takes (r : Recording) (info : BlockInfo) (s : Store) : Type 0 where
  pub cluster : Cluster
  pub prev : Cluster
  pub size : List ℕ
  pub represents : Represents r s cluster prev size
  pub latest : s.latest_block_seq ≡ info.seq
  pub before : s.current_block.prev ≡ info

-- A call took the block, or it ended the program where the block has no data to write.
abbrev pub Refines : Recording → Bool → BlockInfo → Result (List ℕ) → Result Store → Type 0
Refines r new info (ok bytes) (ok s) = Takes (add_block new bytes r) info s
Refines r new info (ok bytes) (err f) = ⊥
Refines r new info (err e) (ok s) = ⊥
Refines r new info (err e) (err f) = e ≡ f
