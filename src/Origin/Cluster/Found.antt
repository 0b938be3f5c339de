-- ===== src/Origin/Cluster/Found.antt =====
-- The WebM header that the origin takes from its file (UpdateWebMHeaderFromWebM in
-- src/common/webm_parser.c).
use p2p_live_streming_system.Prelude.{
  ℕ, zero, suc, ◌+◌, ◌%◌, ◌^◌, ◌≤◌, ◌<◌, ◌≡◌, ◌≢◌, refl, sym, ap, ◌∙◌, List, [], ◌∷◌, some, Bool,
  Bool-cases, true, false, inl, inr, ltb, lt→ltb, if◌then◌else◌, arith, length, take, Buf, at, read,
  read-ext_below, read-at, IsByte,
}
use p2p_live_streming_system.Prelude.Int.{ℤ, pos, ltb_ℤ}
use mathlib.Core.Path.{fun_ext}
use native.Mathlib.Nat.{zero-add}
use p2p_live_streming_system.Words.{u16}
use p2p_live_streming_system.Fault.{ok}
use p2p_live_streming_system.Program.{Program, with_store}
use p2p_live_streming_system.Origin.{analyze_chank_to_webm_header}
use p2p_live_streming_system.Origin.Header.{
  Reason, Stops, WellSized, analyze_chank_to_webm_header_lem,
}
use p2p_live_streming_system.Origin.Read.{check_webm_size, import_count, import_webm, seek_abs_r}
use p2p_live_streming_system.Origin.Cluster.{header_found, take_header, update_webm_header_round}

at-take : (n i : ℕ) (xs : List ℕ) → at (take n xs) i ≡ (if ltb i n then at xs i else 0)
at-take zero i xs = ground arith
at-take (suc n) i [] = ground arith
at-take (suc n) zero (x ∷ xs) = ground arith
at-take (suc n) (suc i) (x ∷ xs) = at-take n i xs ∙ ground arith

if-IsByte : (b : Bool) (x : ℕ) → IsByte x → IsByte (if b then x else 0)
if-IsByte true x h = h
if-IsByte false x h = omega arith

false-absurd : false ≡ true → ⊥
false-absurd e = ground arith

at-take_behind : (n i : ℕ) (xs : List ℕ) → n ≤ i → at (take n xs) i ≡ 0
at-take_behind n i xs h = at-take n i xs ∙ ground arith

-- The bytes of the file that UpdateWebMHeaderFromWebM looks at.
abbrev pub window : List ℕ → List ℕ
window file = take 1024 file

read-window :
    (n : ℕ) (file : List ℕ)
    → n ≤ 1024
    → 1024 < length file
    → read n (at (window file)) ≡ take n file
read-window n file small large =
    read-ext_below n (at (window file)) (at file) (λ i h. at-take 1024 i file ∙ ground arith)
    ∙ read-at n file (omega arith)

-- What a round leaves with the value `status` of the analysis that stopped at `place`.
abbrev pub Left : Program → List ℕ → ℤ → ℕ → Program → Type 0
Left p file status place q =
    if ltb_ℤ (pos 0) status
    then (q.store.webm_header ≡ take place file) × (q.store.position ≡ 0)
    else (q.store.webm_header ≡ p.store.webm_header) × (q.store.position ≡ 1024)

module _ (old : Buf) (p : Program) (file : List ℕ) (large : 1024 < length file)
    (bytes : (i : ℕ) → IsByte (at file i)) (stack : (i : ℕ) → 1024 ≤ i → old i ≡ 0)
    (grown : p.store.total_file_bytes < length file) (start : p.store.position ≡ 0)
    (mark : p.fpos_r ≡ 0) where
  abbrev sized : Program
  sized = record p {
    store = (let s = p.store in record s { file = file; total_file_bytes = length file });
  }

  zeroed : Buf
  zeroed i = if ltb i 1024 then 0 else old i

  abbrev imported : Program
  imported = record sized {
    current_read_bytes = 1024;
    store = (let s = sized.store in record s { position = s.position + 1024 });
  }

  count : import_count sized 1024 ≡ 1024
  count = ground (arith, large, start, mark)

  import_lem : import_webm sized zeroed 1024 ≡ (at (window file), imported)
  unfolding import_webm zeroed
  import_lem = rw count (ap (λ f. (f, imported)) (fun_ext byte))
    where
      byte :
          (i : ℕ)
          → (if ltb i 1024 then at file (p.store.position + i) else if ltb i 1024 then 0 else old i)
            ≡ at (window file) i
      byte i = pick i ∙ sym (at-take 1024 i file)
        where
          pick :
              (i : ℕ)
              → (if ltb i 1024
                  then at file (p.store.position + i)
                  else if ltb i 1024
                  then 0
                  else old i)
                ≡ (if ltb i 1024 then at file i else 0)
          pick i = elim (Bool-cases (ltb i 1024)) [
            | inl e ↦ rw (e, start, zero-add) refl
            | inr e ↦ rw e (stack i (ground arith))
          ]

  round_lem :
      update_webm_header_round old p file
      ≡ header_found imported (at (window file)) (
          analyze_chank_to_webm_header 1025
            (length file)
            (at (window file))
            (length p.store.webm_header))
  unfolding update_webm_header_round take_header check_webm_size zeroed
  round_lem = rw (grew, big, import_lem) refl
    where
      grew : ltb p.store.total_file_bytes (length file) ≡ true
      grew = ground arith

      big : ltb 1024 (length file) ≡ true
      big = ground arith

  -- The place of a Cluster is inside the buffer.
  pub cluster_place :
      (status : ℤ) (place : ℕ)
      → Stops (length file) (at (window file)) 1024 status place
      → ltb_ℤ (pos 0) status ≡ true
      → place < 1024
  cluster_place status place stops h = stops.inside (reach stops.reason h)
    where
      reach :
          Reason (length file) (at (window file)) status place
          → ltb_ℤ (pos 0) status ≡ true
          → at (window file) place ≢ 0
      reach (inl (e, z)) h = absurd (false-absurd (rw e at h))
      reach (inr (inl (e, z, c))) h = z
      reach (inr (inr (inl (e, l)))) h = absurd (false-absurd (rw e at h))
      reach (inr (inr (inr (e, n, c)))) h = absurd (false-absurd (rw e at h))

  found_lem :
      (status : ℤ) (place : ℕ)
      → Stops (length file) (at (window file)) 1024 status place
      → (q : Program) × (header_found imported
            (at (window file))
            (some (status, if ltb_ℤ (pos 0) status then u16 place else length p.store.webm_header))
          ≡ ok (q, ltb_ℤ (pos 0) status))
        × Left p file status place q
  unfolding seek_abs_r
  found_lem status place stops = elim (Bool-cases (ltb_ℤ (pos 0) status)) [
    | inr e ↦ (imported, rw e refl, rw e (refl, rw start refl))
    | inl e ↦
        let inside = cluster_place status place stops e in
        let exact : place % 2 ^ 16 ≡ place = omega (arith, inside) in
        (
          record (with_store (seek_abs_r imported 0) (
              let s = (seek_abs_r imported 0).store in
              record s { webm_header = read (u16 place) (at (window file)) })) {
                header_memory = some (u16 place);
              },
          rw (e, big) refl,
          rw (e, exact) (read-window place file (omega (arith, inside)) large, refl),
        )
  ]
    where
      big : ltb 1024 (length file) ≡ true
      big = lt→ltb 1024 (length file) large

  -- A round of UpdateWebMHeaderFromWebM that finds the file grown to more than 1024 bytes, FP at its
  -- start, zeros on the stack behind the buffer, and elements with proper length fields: the analysis
  -- of the first 1024 bytes ends, and the loop is left exactly if it stopped at a Cluster. Then
  -- WEBM_HEADER has exactly the bytes of the file before that Cluster, and FP is back at the start;
  -- otherwise WEBM_HEADER is as it was, and FP stays behind the 1024 bytes.
  pub update_webm_header_round_lem :
      WellSized (length file) (at (window file)) 1025 0
      → (status : ℤ) × (place : ℕ) × (q : Program) × (Stops
          (length file)
          (at (window file))
          1024
          status
          place)
        × (update_webm_header_round old p file ≡ ok (q, ltb_ℤ (pos 0) status))
        × Left p file status place q
  update_webm_header_round_lem sized_well =
      let (status, place, stops, e) =
        analyze_chank_to_webm_header_lem (length file) (at (window file)) 1024
          (length p.store.webm_header) window_bytes window_zeros (omega arith) sized_well in
      let (q, found, left) = found_lem status place stops in
      (
        status,
        place,
        q,
        stops,
        round_lem ∙ ap (header_found imported (at (window file))) e ∙ found,
        left,
      )
    where
      window_bytes : (i : ℕ) → IsByte (at (window file) i)
      window_bytes i = rw (at-take 1024 i file) (if-IsByte (ltb i 1024) (at file i) (bytes i))

      window_zeros : (i : ℕ) → 1024 ≤ i → at (window file) i ≡ 0
      window_zeros i h = at-take_behind 1024 i file h
