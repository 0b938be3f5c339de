-- ===== src/Store/Seek.antt =====
-- Finding a block in the file (src/common/webm_parser.c: SearchWebM, CalOffset).
-- What a buffer holds behind the bytes that were read is an argument.
mod Tests
pub mod Read
use p2p_live_streming_system.Prelude.{
  ℕ, zero, suc, ◌+◌, ◌-◌, ◌%◌, ◌^◌, ◌<◌, ◌≤◌, ◌≡◌, refl, sym, ap, ◌∙◌, List, [], ◌∷◌, ◌++◌, Bool,
  true, false, ltb, ◌&&◌, if◌then◌else◌, arith, length, length-append, Buf, shift, at, at-append,
  at-append_left, All,
}
use mathlib.Core.List.{append_assoc}
use p2p_live_streming_system.Words.{u32, u64}
use p2p_live_streming_system.Wire.{BlockInfo}
use p2p_live_streming_system.Ebml.{
  Chank, get_chank, get_ebml_id, get_data_bytes, carry, msb_scan, update_data_buf, cluster_id,
  cluster_header_bytes,
}
use p2p_live_streming_system.Ebml.Header.{cluster_header, get_chank-header}
use p2p_live_streming_system.Block.{Block}
use p2p_live_streming_system.Store.{Store, seek_abs_webm}

-- How many bytes SearchWebM asks for: a negative rest of the file is a large size_t.
abbrev pub search_bytes : ℕ → ℕ → ℕ → ℕ
search_bytes total bytes offset =
    if ltb total offset then bytes else if ltb bytes (total - offset) then bytes else total - offset

-- SearchWebM with FP at `offset`, into a buffer that holds `old`.
unfoldable pub search_webm : Store → Buf → ℕ → ℕ → Buf
search_webm s old bytes offset i =
    if ltb i (search_bytes s.total_file_bytes bytes offset) && ltb (offset + i) (length s.file)
    then at s.file (offset + i)
    else old i

-- The loop of CalOffset over the clusters, with `count` to go.
unfoldable pub cluster_offset : Store → Buf → ℕ → ℕ → ℕ
cluster_offset s old zero offset = offset
cluster_offset s old (suc count) offset =
    let chank = get_chank (search_webm s old cluster_header_bytes offset) in
    cluster_offset s old count (u64 (offset + chank.chank_bytes))

-- CalOffset
unfoldable pub cal_offset : Store → Buf → BlockInfo → ℕ
cal_offset s old info =
    let count = u32 (info.cluster_seq + 2 ^ 32 - s.first_cluster_seq) in
    u64 (cluster_offset s old count (length s.webm_header) + u32 (info.pos + info.bytes))

-- Clusters with their sizes written, one behind the other.
abbrev pub cluster_bytes : List (List ℕ) → List ℕ
cluster_bytes [] = []
cluster_bytes (payload ∷ l) = cluster_header (length payload) ++ (payload ++ cluster_bytes l)

pub length-cluster_header : (d : ℕ) → length (cluster_header d) ≡ 12
unfolding update_data_buf
length-cluster_header d = refl

-- A cluster's header is read from the file where it stands.
search_webm-header :
    (s : Store) (old : Buf) (pre more : List ℕ) (d : ℕ)
    → s.file ≡ pre ++ (cluster_header d ++ more)
    → length pre + 12 ≤ s.total_file_bytes
    → (i : ℕ) → i < 12
    → search_webm s old 12 (length pre) i ≡ at (cluster_header d) i
unfolding search_webm
search_webm-header s old pre more d file room i small = rw (asked, held) byte
  where
    asked : ltb i (search_bytes s.total_file_bytes 12 (length pre)) ≡ true
    asked = ground arith

    size : length s.file ≡ length pre + (12 + length more)
    size = rw file (
        omega (
          arith,
          length-append pre (cluster_header d ++ more),
          length-append (cluster_header d) more,
          length-cluster_header d,
        ))

    held : ltb (length pre + i) (length s.file) ≡ true
    held = ground (arith, size)

    byte : at s.file (length pre + i) ≡ at (cluster_header d) i
    byte = rw file (
        at-append pre (cluster_header d ++ more) i
        ∙ at-append_left (cluster_header d) more i (omega (arith, length-cluster_header d)))

cluster_offset_lem :
    (s : Store) (old : Buf) (l : List (List ℕ)) (pre rest : List ℕ)
    → s.file ≡ pre ++ (cluster_bytes l ++ rest)
    → length pre + length (cluster_bytes l) ≤ s.total_file_bytes
    → s.total_file_bytes < 2 ^ 56 - 1
    → cluster_offset s old (length l) (length pre) ≡ length pre + length (cluster_bytes l)
unfolding cluster_offset
cluster_offset_lem s old [] pre rest file room small = omega arith
cluster_offset_lem s old (payload ∷ l) pre rest file room small =
    ap (λ c. cluster_offset s old (length l) (u64 (length pre + c))) found
    ∙ ap (cluster_offset s old (length l)) next
    ∙ cluster_offset_lem s old l (pre ++ cluster) rest file' (omega (arith, size, whole)) small
    ∙ omega (arith, size, whole)
  where
    cluster : List ℕ
    cluster = cluster_header (length payload) ++ payload

    size : length (pre ++ cluster) ≡ length pre + (12 + length payload)
    size = omega (
      arith,
      length-append pre cluster,
      length-append (cluster_header (length payload)) payload,
      length-cluster_header (length payload),
    )

    whole : length (cluster_bytes (payload ∷ l)) ≡ 12 + length payload + length (cluster_bytes l)
    whole = omega (
      arith,
      length-append (cluster_header (length payload)) (payload ++ cluster_bytes l),
      length-append payload (cluster_bytes l),
      length-cluster_header (length payload),
    )

    opened :
        s.file ≡ pre ++ (cluster_header (length payload) ++ (payload ++ (cluster_bytes l ++ rest)))
    opened =
        file
        ∙ ap (λ t. pre ++ t)
            (append_assoc (cluster_header (length payload)) (payload ++ cluster_bytes l) rest
              ∙ ap (λ t. cluster_header (length payload) ++ t)
                  (append_assoc payload (cluster_bytes l) rest))

    file' : s.file ≡ (pre ++ cluster) ++ (cluster_bytes l ++ rest)
    file' =
        opened
        ∙ ap (λ t. pre ++ t)
            (sym (append_assoc (cluster_header (length payload)) payload (cluster_bytes l ++ rest)))
        ∙ sym (append_assoc pre cluster (cluster_bytes l ++ rest))

    found : (get_chank (search_webm s old 12 (length pre))).chank_bytes ≡ 12 + length payload
    found =
        ap (λ k. k.chank_bytes)
          (get_chank-header (length payload) (search_webm s old 12 (length pre))
            (omega (arith, room, small, whole))
            (search_webm-header s old pre (payload ++ (cluster_bytes l ++ rest)) (length payload)
              opened (omega (arith, room, whole))))

    next : u64 (length pre + (12 + length payload)) ≡ length (pre ++ cluster)
    next = omega (arith, size, room, small, whole)

-- CalOffset on a file of the header, whole clusters whose sizes are written, and anything behind
-- them, if TOTAL_FILE_BYTES reaches over these clusters and is below 2^56 - 1: for a block of the
-- cluster behind them it is the place of the end of that block, counted from the cluster's start.
pub cal_offset_lem :
    (s : Store) (old : Buf) (l : List (List ℕ)) (rest : List ℕ) (info : BlockInfo)
    → s.file ≡ s.webm_header ++ (cluster_bytes l ++ rest)
    → length s.webm_header + length (cluster_bytes l) ≤ s.total_file_bytes
    → s.total_file_bytes < 2 ^ 56 - 1
    → info.cluster_seq ≡ s.first_cluster_seq + length l
    → info.cluster_seq < 2 ^ 16
    → info.pos + info.bytes < 2 ^ 32
    → cal_offset s old info ≡ length (s.webm_header ++ cluster_bytes l) + (info.pos + info.bytes)
unfolding cal_offset
cal_offset_lem s old l rest info file room small seq fits place =
    ap (λ c. u64 (cluster_offset s old c (length s.webm_header) + u32 (info.pos + info.bytes)))
      count
    ∙ ap (λ o. u64 (o + u32 (info.pos + info.bytes)))
        (cluster_offset_lem s old l s.webm_header rest file room small)
    ∙ omega (arith, length-append s.webm_header (cluster_bytes l))
  where
    count : u32 (info.cluster_seq + 2 ^ 32 - s.first_cluster_seq) ≡ length l
    count = omega arith
