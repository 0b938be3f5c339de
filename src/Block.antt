-- ===== src/Block.antt =====
-- How the origin cuts a cluster into blocks (src/common/webm_parser.c: GetChankByBytes,
-- AssignBlockInfoByPiece, AssignBlockInfoBySB, GetNextBlockByBytes, ShiftToPreBlock, RenewBlock),
-- and the order of blocks (IsOldBlockSeq).
-- `none` is the value of a scan that the fuel did not let end.
pub mod Scan
pub mod Piece
pub mod Next
pub mod Status
pub mod Total
pub mod Scanned
pub mod Bounds
mod Tests
use p2p_live_streming_system.Prelude.{
  ℕ, zero, suc, ◌+◌, ◌-◌, ◌*◌, ◌/◌, ◌%◌, ◌^◌, Option, none, some, Bool, true, false, ◌==◌, ltb, leb,
  if◌then◌else◌, Buf, shift,
}
use p2p_live_streming_system.Words.{u8, u16, u32, u64}
use p2p_live_streming_system.Wire.{BlockInfo}
use p2p_live_streming_system.Ebml.{
  Chank, get_chank, cluster_id, cue_id, timecode_id, simpleblock_id, cluster_header_bytes,
}

abbrev pub status_piece : ℕ
status_piece = 1

abbrev pub status_simpleblock : ℕ
status_simpleblock = 2

abbrev pub status_block : ℕ
status_block = 3

abbrev pub status_init : ℕ
status_init = 5

abbrev pub max_block_bytes : ℕ
max_block_bytes = 1000

-- What GetChankByBytes returns: 0 for nothing that fits, 1 for SimpleBlocks, and these two.
abbrev pub cluster_end : ℕ
cluster_end = 2

abbrev pub only_timecode : ℕ
only_timecode = 3

-- `struct Block`: its info and that of the block before. The links `prev->prev` and `next` are set
-- and never followed.
pub record Block : Type 0 where
  pub info : BlockInfo
  pub prev : BlockInfo

-- A BlockInfo after `bzero`.
abbrev pub zero_info : BlockInfo
zero_info = record {
  pos = 0;
  seq = 0;
  bytes = 0;
  total_piece_bytes = 0;
  cluster_seq = 0;
  total_pieces = 0;
  piece_seq = 0;
  status = 0;
  layer = 0;
}

-- InitBlock
unfoldable pub init_block : Block
init_block = record {
  info = record zero_info { pos = cluster_header_bytes };
  prev = record zero_info { status = status_init; cluster_seq = 0 };
}

-- ShiftToPreBlock
unfoldable pub shift_to_pre_block : Block → Block
shift_to_pre_block b = record { info = zero_info; prev = b.info }

-- RenewBlock
unfoldable pub renew_block : Block → Block
renew_block b = record {
  info = zero_info;
  prev = record zero_info {
    status = status_init;
    cluster_seq = u16 (b.info.cluster_seq + 1);
    pos = cluster_header_bytes;
  };
}

-- The `while( 1 )` of GetChankByBytes: the status and the total bytes when it breaks.
-- The arguments are current_position, current_total_bytes and status.
unfoldable pub chank_loop : ℕ → Buf → ℕ → ℕ → ℕ → ℕ → Option (ℕ × ℕ)
chank_loop zero buf req position total status = none
chank_loop (suc fuel) buf req position total status =
    let c = get_chank (shift buf position) in
    let after = u64 (total + c.chank_bytes) in
    let timecode = chank_loop fuel buf req (u64 (position + c.chank_bytes)) after only_timecode in
    let simpleblock = chank_loop fuel buf req (u64 (position + c.chank_bytes)) after 1 in
    if c.id == cluster_id
    then some (cluster_end, total)
    else if c.id == cue_id
    then some (cluster_end, total)
    else if ltb req after
    then some (status, total)
    else if c.id == timecode_id
    then timecode
    else if c.id == simpleblock_id
    then simpleblock
    else some (status, total)

-- GetChankByBytes: the status, and the block with the bytes added. A loop that ends takes at most
-- req + 1 rounds.
unfoldable pub get_chank_by_bytes : Block → Buf → ℕ → Option (ℕ × Block)
get_chank_by_bytes b buf req = elim (chank_loop (suc req) buf req 0 0 0) [
  | none ↦ none
  | some (status, total) ↦
      some (status, record b { info = record b.info { bytes = u16 (b.info.bytes + total) } })
]

-- The flags of AssignBlockInfoByPiece.
pub data Flag : Type 0 where
  first_flag other_flag last_flag : Flag

-- AssignBlockInfoByPiece. `ceil( x*1.0 / MAX_BLOCK_BYTES )` is exact for elements of any size that
-- a file holds in practice (below 2^31, where the cast to int is defined).
-- `total_piece_bytes - req * piece_seq` is an int, and negative values wrap to the u16.
unfoldable pub assign_block_info_by_piece : Block → Buf → ℕ → Flag → Block
assign_block_info_by_piece b buf req first_flag =
    let next_chank = get_chank buf in
    record b {
      info = record b.info {
        status = status_piece;
        total_pieces = u8 ((u64 (next_chank.chank_bytes + b.info.bytes) + 999) / max_block_bytes);
        bytes = u16 (b.info.bytes + req);
        piece_seq = 1;
        total_piece_bytes = u16 (b.info.total_piece_bytes + next_chank.chank_bytes);
      };
    }
assign_block_info_by_piece b buf req other_flag = record b {
  info = record b.info {
    status = status_piece;
    bytes = req;
    total_pieces = b.prev.total_pieces;
    piece_seq = u8 (b.prev.piece_seq + 1);
    total_piece_bytes = b.prev.total_piece_bytes;
  };
}
assign_block_info_by_piece b buf req last_flag = record b {
  info = record b.info {
    status = status_piece;
    bytes = u16 (b.prev.total_piece_bytes + 2 ^ 32 - req * b.prev.piece_seq);
    total_pieces = b.prev.total_pieces;
    piece_seq = u8 (b.prev.piece_seq + 1);
    total_piece_bytes = b.prev.total_piece_bytes;
  };
}

-- AssignBlockInfoBySB
unfoldable pub assign_block_info_by_sb : BlockInfo → BlockInfo
assign_block_info_by_sb info = record info {
  status = status_simpleblock;
  total_piece_bytes = 0;
  total_pieces = 0;
  piece_seq = 0;
}

abbrev then_with : Option (ℕ × Block) → (ℕ → Block → Option (ℕ × Block)) → Option (ℕ × Block)
then_with none f = none
then_with (some (ret, b)) f = f ret b

-- The branch of GetNextBlockByBytes for the first block of a cluster.
unfoldable pub next_block_init : Block → ℕ → Buf → Option (ℕ × Block)
next_block_init b req buf = then_with (get_chank_by_bytes b buf req) λ ret b'.
    if ret == 0
    then some (ret, assign_block_info_by_piece b' buf req first_flag)
    else if ret == only_timecode
    then (let timecode = get_chank buf in
        let bytes = u16 timecode.chank_bytes in
        let b'' : Block = record b' {
          info = record b'.info { total_piece_bytes = bytes; bytes = bytes };
        } in
        some (
          ret,
          assign_block_info_by_piece b'' (shift buf bytes) (u16 (req + 2 ^ 16 - bytes)) first_flag,
        ))
    else some (ret, record b' { info = assign_block_info_by_sb b'.info })

-- The branch for a block after the last but one piece: the last piece, and what still fits.
unfoldable pub next_block_last : Block → ℕ → Buf → Option (ℕ × Block)
next_block_last b req buf =
    let p = assign_block_info_by_piece b buf req last_flag in
    then_with (get_chank_by_bytes p (shift buf p.info.bytes) (u16 (req + 2 ^ 16 - p.info.bytes)))
      λ ret b'.
        if ltb 0 ret
        then some (ret, record b' { info = record b'.info { status = status_block } })
        else some (ret, b')

-- The branch for a block that starts at an element.
unfoldable pub next_block_fresh : Block → ℕ → Buf → Option (ℕ × Block)
next_block_fresh b req buf = then_with (get_chank_by_bytes b buf req) λ ret b'.
    if ltb 0 ret
    then some (ret, record b' { info = assign_block_info_by_sb b'.info })
    else some (ret, assign_block_info_by_piece b' buf req first_flag)

-- The number and the place of the first block of a cluster, and of any other.
abbrev first_in_cluster : Block → Block
first_in_cluster b = record b {
  info = record b.info { cluster_seq = b.prev.cluster_seq; seq = 1; pos = cluster_header_bytes };
}

abbrev after_previous : Block → Block
after_previous b = record b {
  info = record b.info {
    cluster_seq = b.prev.cluster_seq;
    seq = u32 (b.prev.seq + 1);
    pos = u32 (b.prev.pos + b.prev.bytes);
  };
}

-- GetNextBlockByBytes: the value that it returns and the block.
unfoldable pub get_next_block_by_bytes : Block → ℕ → Buf → Option (ℕ × Block)
get_next_block_by_bytes b req buf =
    if b.prev.status == status_init
    then next_block_init (first_in_cluster b) req buf
    else if b.prev.status == status_piece
    then (if b.prev.total_pieces == b.prev.piece_seq + 1
        then next_block_last (after_previous b) req buf
        else if b.prev.total_pieces == b.prev.piece_seq
        then next_block_fresh (after_previous b) req buf
        else some (0, assign_block_info_by_piece (after_previous b) buf req other_flag))
    else next_block_fresh (after_previous b) req buf

-- At most `n` rounds of the origin's loop over a cluster (main): ReadBlock gets the next block from what
-- the file holds there, and ShiftToPreBlock makes it the previous one; at the end of the cluster the
-- loop is left, and RenewBlock takes its place. `bufs` is what each round reads.
unfoldable pub next_blocks : ℕ → (ℕ → Buf) → Block → Option Block
next_blocks zero bufs b = some b
next_blocks (suc n) bufs b = elim (get_next_block_by_bytes b max_block_bytes (bufs 0)) [
  | none ↦ none
  | some (ret, c) ↦
      let rest = next_blocks n (λ i. bufs (i + 1)) (shift_to_pre_block c) in
      if ret == cluster_end then some (renew_block c) else rest
]

-- IsOldBlockSeq: `latest_cluster` is CURRENT_CLUSTER->prev->seq, `latest_seq` is LATEST_BLOCK_SEQ.
unfoldable pub is_old_block_seq : ℕ → ℕ → BlockInfo → Bool
is_old_block_seq latest_cluster latest_seq info =
    if ltb info.cluster_seq latest_cluster
    then true
    else if info.cluster_seq == latest_cluster
    then leb info.seq latest_seq
    else false
