-- ===== src/Origin/Tests.antt =====
-- A header of two elements with a cluster behind it, and the program of the origin on its file.
use p2p_live_streming_system.Prelude.{
  ℕ, suc, ◌+◌, ◌≤◌, ◌≡◌, refl, List, [], ◌∷◌, ◌++◌, All, some, arith, length, replicate, at,
  at-IsByte, IsByte, Buf, shift,
}
use p2p_live_streming_system.Prelude.Int.{ℤ, pos}
use p2p_live_streming_system.Ebml.{
  footer, get_chank, get_ebml_id, get_data_bytes, msb_scan, carry, update_data_buf,
}
use p2p_live_streming_system.Ebml.Header.{cluster_header}
use p2p_live_streming_system.Ebml.Reach.{IsSized}
use p2p_live_streming_system.Fault.{ok}
use p2p_live_streming_system.Program.{Program}
use p2p_live_streming_system.Program.Tests.{program, empty_cluster, elements}
use p2p_live_streming_system.Origin.{analyze_loop, analyze_chank_to_webm_header}
use p2p_live_streming_system.Origin.Header.{advance, Stops, WellSized}
use p2p_live_streming_system.Origin.Cluster.{update_webm_header_round, update_cluster_from_webm}
use p2p_live_streming_system.Origin.Cluster.Ready.{with_cluster, update_cluster_from_webm-ready}
use p2p_live_streming_system.Origin.Cluster.Found.{window}
use p2p_live_streming_system.Origin.Cluster.Small.{Ends, update_webm_header_round-null_pointer}

-- An EBML header of one byte, and a Segment of unknown size.
abbrev pub header : List ℕ
header =
    0x1a
    ∷ 0x45
    ∷ 0xdf
    ∷ 0xa3
    ∷ 0x81
    ∷ 5
    ∷ 0x18
    ∷ 0x53
    ∷ 0x80
    ∷ 0x67
    ∷ 0x01
    ∷ (replicate 7 0xff ++ footer)

pub header_bytes : All IsByte header
header_bytes = ground arith

header_buf_bytes : (i : ℕ) → IsByte (at header i)
header_buf_bytes = at-IsByte header header_bytes

ends-WellSized : (total n p : ℕ) (buf : Buf) → buf p ≡ 0 → WellSized total buf (suc n) p
ends-WellSized total n p buf e z = absurd (z e)

meets-WellSized :
    (total n p k : ℕ) (buf : Buf)
    → IsSized (shift buf p)
    → p + advance (get_chank (shift buf p)) ≡ k
    → WellSized total buf n k
    → WellSized total buf (suc n) p
meets-WellSized total n p k buf s e w z = (s, rw e w)

-- The lengths of the three elements, in a buffer that starts with them.
abbrev pub Met : Buf → Type 0
Met buf =
    IsSized (shift buf 0)
    × (0 + advance (get_chank (shift buf 0)) ≡ 6)
    × IsSized (shift buf 6)
    × (6 + advance (get_chank (shift buf 6)) ≡ 18)
    × IsSized (shift buf 18)
    × (18 + advance (get_chank (shift buf 18)) ≡ 30)
    × (buf 30 ≡ 0)

pub Met-WellSized : (total : ℕ) (buf : Buf) → Met buf → (n : ℕ) → WellSized total buf (n + 4) 0
Met-WellSized total buf (s0, e0, s1, e1, s2, e2, e) n = rw fuel (
    meets-WellSized total (suc (suc (suc n))) 0 6 buf s0 e0 (
      meets-WellSized total (suc (suc n)) 6 18 buf s1 e1
        (meets-WellSized total (suc n) 18 30 buf s2 e2 (ends-WellSized total n 30 buf e))))
  where
    fuel : n + 4 ≡ suc (suc (suc (suc n)))
    fuel = omega arith

header-Met : Met (at header)
unfolding get_chank get_ebml_id get_data_bytes msb_scan carry
header-Met = (
  λ z. absurd (omega arith),
  refl,
  λ z. absurd (omega arith),
  refl,
  λ z. absurd (omega arith),
  refl,
  refl,
)

abbrev closed_file : List ℕ
closed_file = 11 ∷ 12 ∷ (cluster_header 8 ++ (elements ++ footer))

-- Before the cluster at 2, when the file had 14 bytes.
abbrev waiting : Program
waiting = record program {
  fpos_r = 2;
  store = (let s = program.store in record s { position = 2; total_file_bytes = 14 });
}

grows : 14 ≤ length closed_file
unfolding update_data_buf
grows = omega arith

update_cluster_from_webm-ready_example :
    update_cluster_from_webm 1 (at []) (λ k. closed_file) waiting
    ≡ ok
        (some (with_cluster waiting closed_file 8 (record empty_cluster { seq = 1 }) empty_cluster))
update_cluster_from_webm-ready_example =
    update_cluster_from_webm-ready waiting (at []) (11 ∷ 12 ∷ []) (elements ++ footer) 8 closed_file
      refl (omega arith) (omega arith) grows refl refl 0 (λ k. closed_file)
      (record empty_cluster { seq = 1 }) empty_cluster refl refl

-- At the start of an empty file.
abbrev pub starting : Program
starting = record program {
  store = (let s = program.store in record s { position = 0; total_file_bytes = 0 });
}

analysis : analyze_chank_to_webm_header 1025 30 (at header) 2 ≡ some (pos 1, 18)
unfolding analyze_chank_to_webm_header analyze_loop get_chank get_ebml_id get_data_bytes msb_scan
    carry
analysis = refl

update_webm_header_round-null_pointer_example :
    (status : ℤ) × (place : ℕ) × (Stops (length header) (at header) (length header) status place)
    × Ends starting header status place (update_webm_header_round (at []) starting header)
update_webm_header_round-null_pointer_example =
    update_webm_header_round-null_pointer (at []) starting header (omega arith) header_buf_bytes
      (λ i h. refl) (omega arith) refl refl refl
      (Met-WellSized (length header) (at header) header-Met 1021)

abbrev pub long_file : List ℕ
long_file = header ++ replicate 1000 0

pub long-Met : Met (at (window long_file))
unfolding get_chank get_ebml_id get_data_bytes msb_scan carry
long-Met = (
  λ z. absurd (omega arith),
  refl,
  λ z. absurd (omega arith),
  refl,
  λ z. absurd (omega arith),
  refl,
  refl,
)
