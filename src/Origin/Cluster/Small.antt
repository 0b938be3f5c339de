-- ===== src/Origin/Cluster/Small.antt =====
-- The WebM header in a file of at most 1024 bytes (UpdateWebMHeaderFromWebM in
-- src/common/webm_parser.c).
use p2p_live_streming_system.Prelude.{
  ℕ, zero, suc, ◌+◌, ◌≤◌, ◌<◌, ◌≡◌, ◌≢◌, refl, sym, ap, ◌∙◌, List, [], ◌∷◌, some, none, Bool,
  Bool-cases, true, false, inl, inr, ltb, lt→ltb, ltb→lt, ◌==◌, if◌then◌else◌, arith, length, Buf,
  at, IsByte,
}
use p2p_live_streming_system.Prelude.Int.{ℤ, pos, ltb_ℤ}
use mathlib.Core.Path.{fun_ext}
use native.Mathlib.Nat.{zero-add}
use p2p_live_streming_system.Words.{u16}
use p2p_live_streming_system.Fault.{Result, ok, err, null_pointer}
use p2p_live_streming_system.Program.{Program}
use p2p_live_streming_system.Origin.{analyze_chank_to_webm_header}
use p2p_live_streming_system.Origin.Header.{
  Reason, Stops, WellSized, analyze_chank_to_webm_header_lem,
}
use p2p_live_streming_system.Origin.Read.{check_webm_size, import_count, import_webm, seek_abs_r}
use p2p_live_streming_system.Origin.Cluster.{header_found, take_header, update_webm_header_round}

behind : (xs : List ℕ) (i : ℕ) → length xs ≤ i → at xs i ≡ 0
behind [] i h = refl
behind (x ∷ xs) zero h = absurd (omega arith)
behind (x ∷ xs) (suc i) h = behind xs i (omega arith)

-- How the round ends, with the value `status` of the analysis that stopped at `place`.
abbrev pub Ends : Program → List ℕ → ℤ → ℕ → Result (Program × Bool) → Type 0
Ends p file status place r =
    if ltb_ℤ (pos 0) status
    then (if place == 0
        then ((q : Program) × (r ≡ ok (q, true))
            × (q.store.webm_header ≡ [])
            × (q.store.position ≡ 0))
        else r ≡ err null_pointer)
    else ((q : Program) × (r ≡ ok (q, false))
        × (q.store.webm_header ≡ p.store.webm_header)
        × (q.store.position ≡ length file))

module _ (old : Buf) (p : Program) (file : List ℕ) (small : length file ≤ 1024)
    (bytes : (i : ℕ) → IsByte (at file i)) (stack : (i : ℕ) → length file ≤ i → old i ≡ 0)
    (grown : p.store.total_file_bytes < length file) (start : p.store.position ≡ 0)
    (mark : p.fpos_r ≡ 0) (unset : p.header_memory ≡ none) where
  abbrev sized : Program
  sized = record p {
    store = (let s = p.store in record s { file = file; total_file_bytes = length file });
  }

  zeroed : Buf
  zeroed i = if ltb i (length file) then 0 else old i

  abbrev imported : Program
  imported = record sized {
    current_read_bytes = length file;
    store = (let s = sized.store in record s { position = s.position + length file });
  }

  count : import_count sized (length file) ≡ length file
  count = rw (start, mark) (ground arith)

  import_lem : import_webm sized zeroed (length file) ≡ (at file, imported)
  unfolding import_webm zeroed
  import_lem = rw count (ap (λ f. (f, imported)) (fun_ext byte))
    where
      byte :
          (i : ℕ)
          → (if ltb i (length file)
              then at file (p.store.position + i)
              else if ltb i (length file)
              then 0
              else old i)
            ≡ at file i
      byte i = elim (Bool-cases (ltb i (length file))) [
        | inl e ↦ rw (e, start, zero-add) refl
        | inr e ↦ rw e (stack i (ground arith) ∙ sym (behind file i (ground arith)))
      ]

  not_large : ltb 1024 (length file) ≡ false
  not_large = ground arith

  round_lem :
      update_webm_header_round old p file
      ≡ header_found imported
          (at file)
          (analyze_chank_to_webm_header 1025 (length file) (at file) (length p.store.webm_header))
  unfolding update_webm_header_round take_header check_webm_size zeroed
  round_lem = rw (grew, not_large, import_lem) refl
    where
      grew : ltb p.store.total_file_bytes (length file) ≡ true
      grew = lt→ltb p.store.total_file_bytes (length file) grown

  inside_file : (place : ℕ) → at file place ≢ 0 → place < length file
  inside_file place z = elim (Bool-cases (ltb place (length file))) [
    | inl l ↦ ltb→lt place (length file) l
    | inr l ↦ absurd (z (behind file place (ground arith)))
  ]

  copied_lem :
      (place : ℕ)
      → place < 1024
      → Ends p file (pos 1) place (header_found imported (at file) (some (pos 1, u16 place)))
  unfolding seek_abs_r
  copied_lem zero h = rw (not_large, unset) (_, refl, refl, refl)
  copied_lem (suc k) h = rw (not_large, unset, apart, positive) refl
    where
      apart : (u16 (suc k) == 0) ≡ false
      apart = ground arith

      positive : (suc k == 0) ≡ false
      positive = ground arith

  -- A round of UpdateWebMHeaderFromWebM that finds the file grown to at most 1024 bytes, FP at its start,
  -- zeros on the stack behind the buffer, elements with proper length fields and WEBM_HEADER.data NULL:
  -- the analysis of the whole file ends; if it stopped at a Cluster that is not the first element, the
  -- header is copied to NULL; if the Cluster is the first element, nothing is copied and the loop is
  -- left with an empty header and FP at the start; otherwise the loop goes on, WEBM_HEADER is as it
  -- was, and FP stays at the end of the file.
  pub update_webm_header_round-null_pointer :
      WellSized (length file) (at file) 1025 0
      → (status : ℤ) × (place : ℕ) × (Stops (length file) (at file) (length file) status place)
        × Ends p file status place (update_webm_header_round old p file)
  update_webm_header_round-null_pointer sized_well =
      let (status, place, stops, e) =
        analyze_chank_to_webm_header_lem (length file) (at file) 1024 (length p.store.webm_header)
          bytes (λ i h. behind file i (omega (arith, small))) (omega arith) sized_well in
      (
        status,
        place,
        record { walk = stops.walk; reason = stops.reason; inside = inside_file place },
        rw (round_lem ∙ ap (header_found imported (at file)) e) (ended status place stops),
      )
    where
      ended :
          (status : ℤ) (place : ℕ)
          → Stops (length file) (at file) 1024 status place
          → Ends p file status place (
              header_found imported (at file) (
                some
                  (status, if ltb_ℤ (pos 0) status then u16 place else length p.store.webm_header)))
      ended status place stops = by_reason stops.reason
        where
          by_reason :
              Reason (length file) (at file) status place
              → Ends p file status place (
                  header_found imported (at file) (
                    some (
                      status,
                      if ltb_ℤ (pos 0) status then u16 place else length p.store.webm_header,
                    )))
          by_reason (inl (e, z)) = rw e (imported, refl, refl, rw (start, zero-add) refl)
          by_reason (inr (inl (e, z, c))) = rw e (copied_lem place (stops.inside z))
          by_reason (inr (inr (inl (e, l)))) =
              rw e (imported, refl, refl, rw (start, zero-add) refl)
          by_reason (inr (inr (inr (e, n, c)))) =
              rw e (imported, refl, refl, rw (start, zero-add) refl)
