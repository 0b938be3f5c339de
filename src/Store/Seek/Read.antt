-- ===== src/Store/Seek/Read.antt =====
-- SearchWebM on a file that is long enough (src/common/webm_parser.c).
use p2p_live_streming_system.Prelude.{
  ℕ, ◌+◌, ◌≤◌, ◌<◌, ◌≡◌, ◌∙◌, arith, length, take, drop, read, read-ext_below, read-shift, at,
  shift, Buf,
}
use p2p_live_streming_system.Store.{Store}
use p2p_live_streming_system.Store.Seek.{search_webm}

pub search_webm-read :
    (s : Store) (old : Buf) (bytes count offset : ℕ)
    → offset + bytes ≤ s.total_file_bytes
    → offset + bytes ≤ length s.file
    → count ≤ bytes
    → read count (search_webm s old bytes offset) ≡ take count (drop offset s.file)
unfolding search_webm
search_webm-read s old bytes count offset room held small =
    read-ext_below count _ _ byte ∙ read-shift offset count s.file (omega arith)
  where
    byte : (i : ℕ) → i < count → search_webm s old bytes offset i ≡ shift (at s.file) offset i
    byte i h = ground arith
