-- ===== src/Origin.antt =====
-- The program of the origin (main in src/originsource/main.c, and what it calls in
-- src/common/webm_parser.c and src/common/p2p.c). A value `none` is that of a loop that the fuel did
-- not let end.
pub mod Header
pub mod Read
pub mod Cluster
pub mod Main
pub mod Tests
use p2p_live_streming_system.Prelude.{
  ℕ, zero, suc, ◌+◌, ◌-◌, ◌<◌, ◌^◌, ◌++◌, List, [], ◌∷◌, Option, none, some, Bool, true, false, not,
  ◌&&◌, ◌||◌, ◌==◌, ltb, if◌then◌else◌, length, read, at, Buf, shift,
}
use p2p_live_streming_system.Prelude.Int.{ℤ, pos, negsuc, ltb_ℤ}
use p2p_live_streming_system.Words.{u16, u64}
use p2p_live_streming_system.Ebml.{
  Chank, get_chank, ebml_id, segment_id, seekhead_id, void_id, info_id, tracks_id, cluster_id,
}
use p2p_live_streming_system.Fault.{Result, ok, ◌>>=◌}
use p2p_live_streming_system.Program.{Program}
use p2p_live_streming_system.Program.Cache.{send_mul_stream}

-- The elements that the analysis steps over.
abbrev pub is_header_id : ℕ → Bool
is_header_id id =
    id == ebml_id
    || id == segment_id
    || id == seekhead_id
    || id == void_id
    || id == info_id
    || id == tracks_id

-- A Segment of a known size is entered, not stepped over.
abbrev pub is_entered : Chank → Bool
is_entered c = c.id == segment_id && not (c.data_bytes == 0)

-- The loop of AnalyzeChankToWebMHeader, `total` being TOTAL_FILE_BYTES: the status and
-- `current_bytes`, which is also `current_position`.
unfoldable pub analyze_loop : ℕ → ℕ → Buf → ℕ → Option (ℤ × ℕ)
analyze_loop zero total buf position = none
analyze_loop (suc fuel) total buf position =
    let c = get_chank (shift buf position) in
    let inside = analyze_loop fuel total buf (u64 (position + c.data_header_position)) in
    let behind = analyze_loop fuel total buf (u64 (position + c.chank_bytes)) in
    if buf position == 0
    then some (pos 0, position)
    else if is_entered c
    then inside
    else if is_header_id c.id
    then (if ltb total c.chank_bytes then some (negsuc 0, position) else behind)
    else if c.id == cluster_id
    then some (pos 1, position)
    else some (negsuc 1, position)

-- The end of AnalyzeChankToWebMHeader: the status, and WEBM_HEADER.total_bytes, which was
-- `total_bytes`.
abbrev pub analyzed : ℕ → Option (ℤ × ℕ) → Option (ℤ × ℕ)
analyzed total_bytes none = none
analyzed total_bytes (some (status, current_bytes)) =
    some (status, if ltb_ℤ (pos 0) status then u16 current_bytes else total_bytes)

-- AnalyzeChankToWebMHeader
unfoldable pub analyze_chank_to_webm_header : ℕ → ℕ → Buf → ℕ → Option (ℤ × ℕ)
analyze_chank_to_webm_header fuel total buf total_bytes =
    analyzed total_bytes (analyze_loop fuel total buf 0)

-- The last loop of main, entered with an `is_streaming` that is not 0; `none` is out of fuel.
unfoldable pub streaming_loop : ℕ → Buf → Program → Result (Option Program)
streaming_loop zero old p = ok none
streaming_loop (suc fuel) old p = do
  (q, is_streaming) ← send_mul_stream old p
  elim is_streaming [ zero ↦ ok (some q) | suc k ↦ streaming_loop fuel old q ]
