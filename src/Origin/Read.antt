-- ===== src/Origin/Read.antt =====
-- How the origin reads the file that grows (src/common/webm_parser.c: CheckWebMSize, ImportWebM,
-- SeekRLTWebM, SeekForNextBlock; src/common/p2p.c: ReadBlock; the inner loop of main in
-- src/originsource/main.c). What a buffer held before is an argument.
pub mod Place
pub mod Returns
use p2p_live_streming_system.Prelude.{
  ℕ, zero, suc, ◌+◌, ◌-◌, ◌^◌, List, Option, none, some, Bool, true, false, ◌==◌, ltb,
  if◌then◌else◌, length, min, at, Buf,
}
use p2p_live_streming_system.Prelude.Int.{ℤ, pos, pos_part, ◌+ℤ◌, ◌-ℤ◌}
use p2p_live_streming_system.Words.{u64}
use p2p_live_streming_system.Block.{
  Block, get_next_block_by_bytes, max_block_bytes, cluster_end, renew_block, shift_to_pre_block,
}
use p2p_live_streming_system.Fault.{Result, ok, err, endless_loop, ◌>>=◌}
use p2p_live_streming_system.Store.{Store}
use p2p_live_streming_system.Store.Seek.{search_bytes}
use p2p_live_streming_system.Program.{Program, with_store}
use p2p_live_streming_system.Program.Cache.{send_mul_stream}

-- CheckWebMSize, when `fstat` finds the file to be `file`: whether it has grown.
unfoldable pub check_webm_size : Program → List ℕ → Program × Bool
check_webm_size p file =
    let s = p.store in
    let grown = ltb s.total_file_bytes (length file) in
    (
      record p {
        store = record s {
          file = file;
          total_file_bytes = if grown then length file else s.total_file_bytes;
        };
      },
      grown,
    )

-- The bytes that ImportWebM gets: a negative rest of the file is a large size_t.
abbrev pub import_count : Program → ℕ → ℕ
import_count p bytes =
    let s = p.store in
    min (search_bytes s.total_file_bytes bytes p.fpos_r) (length s.file - s.position)

-- ImportWebM, into a buffer that holds `old`.
unfoldable pub import_webm : Program → Buf → ℕ → Buf × Program
import_webm p old bytes =
    let s = p.store in
    let count = import_count p bytes in
    (
      λ i. if ltb i count then at s.file (s.position + i) else old i,
      record p { current_read_bytes = count; store = record s { position = s.position + count } },
    )

-- SeekABSWebM and SeekRLTWebM on CURRENT_FPOS_R. FP is never taken back before the start: SeekRLTWebM
-- goes back over what was read, or over a cluster's header behind the WebM header.
unfoldable pub seek_abs_r : Program → ℕ → Program
seek_abs_r p offset = record p {
  fpos_r = offset;
  store = (let s = p.store in record s { position = offset });
}

unfoldable pub seek_rlt_r : Program → ℤ → Program
seek_rlt_r p offset = seek_abs_r p (pos_part (pos p.store.position +ℤ offset))

-- SeekForNextBlock
unfoldable pub seek_for_next_block : Program → Program
seek_for_next_block p =
    seek_rlt_r p (pos p.store.current_block.info.bytes -ℤ pos p.current_read_bytes)

abbrev pub set_current_block : Program → Block → Program
set_current_block p b = with_store p (let s = p.store in record s { current_block = b })

-- The end of ReadBlock.
abbrev pub block_read : Program → Option (ℕ × Block) → Result (ℕ × Program)
block_read p none = err endless_loop
block_read p (some (status, b)) = ok (
  status,
  with_store p (
      let s = p.store in
      record s { current_block = b; total_block_num = u64 (s.total_block_num + 1) }),
)

-- ReadBlock on CURRENT_BLOCK.
unfoldable pub read_block : Program → Buf → Result (ℕ × Program)
read_block p old =
    let (buf, q) = import_webm p old max_block_bytes in
    block_read q (get_next_block_by_bytes q.store.current_block max_block_bytes buf)

abbrev pub set_latest : Program → Program
set_latest p = record p {
  store = (let s = p.store in record s { latest_block_seq = s.current_block.info.seq });
}

-- What main does behind ReadBlock: inside the loop, and when the cluster has ended.
unfoldable pub after_read : Buf → ℕ × Program → Result (ℕ × Program)
after_read old (status, p) =
    if status == cluster_end
    then ok (
      status,
      (let q = seek_for_next_block (set_latest p) in
          set_current_block q (renew_block q.store.current_block)),
    )
    else (send_mul_stream old (set_latest p) >>= λ (q, ret).
        let r = seek_for_next_block q in
        ok (status, set_current_block r (shift_to_pre_block r.store.current_block)))

-- One round of `while( ReadBlock( CURRENT_BLOCK ) != CLUSTER_END )`, the lines behind the loop
-- included in its last round.
unfoldable pub block_round : Buf → Program → Result (ℕ × Program)
block_round old p = read_block p old >>= after_read old

-- The loop.
unfoldable pub block_loop : ℕ → Buf → Program → Result (Option Program)
block_loop zero old p = ok none
block_loop (suc fuel) old p = block_round old p >>= λ (status, q).
    let rest = block_loop fuel old q in if status == cluster_end then ok (some q) else rest
