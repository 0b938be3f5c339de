-- ===== src/Origin/Read/Returns.antt =====
-- When a round of the origin's loop over a cluster returns (src/originsource/main.c, and ReadBlock in
-- src/common/p2p.c).
mod Tests
use p2p_live_streming_system.Prelude.{
  ◌+◌, sym, Option, none, Bool, false, ltb, ◌&&◌, if◌then◌else◌, at, Buf,
}
use p2p_live_streming_system.Words.{u64}
use p2p_live_streming_system.Block.{Block, max_block_bytes}
use p2p_live_streming_system.Fault.{Result, err, Ensures}
use p2p_live_streming_system.Store.{Store}
use p2p_live_streming_system.Program.{Program, with_store}
use p2p_live_streming_system.Origin.Read.{import_count, import_webm, set_latest}

-- What ReadBlock gets from the file.
abbrev pub read_buffer : Program → Buf → Buf
read_buffer p old = (import_webm p old max_block_bytes).0

-- The program behind ReadBlock, with LATEST_BLOCK_SEQ set.
abbrev behind : Program → Buf → Block → Program
behind p old b =
    let q = (import_webm p old max_block_bytes).1 in
    set_latest (
      with_store q (
        let s = q.store in
        record s { current_block = b; total_block_num = u64 (s.total_block_num + 1) }))

-- The program behind ReadBlock.
abbrev was_read : Program → Buf → Block → Program
was_read p old b =
    let q = (import_webm p old max_block_bytes).1 in
    with_store q (
      let s = q.store in
      record s { current_block = b; total_block_num = u64 (s.total_block_num + 1) })
