-- ===== src/Origin/Header.antt =====
-- The analysis of the WebM header (src/common/webm_parser.c: AnalyzeChankToWebMHeader).
use p2p_live_streming_system.Prelude.{
  ℕ, zero, suc, ◌+◌, ◌^◌, ◌≤◌, ◌<◌, ◌≡◌, ◌≢◌, ◌⊎◌, inl, inr, refl, Option, none, some, true, false,
  Bool-cases, ◌==◌, ==_iff, ltb, ltb→lt, if◌then◌else◌, arith, Buf, shift, IsByte,
}
use p2p_live_streming_system.Prelude.Int.{ℤ, pos, negsuc, ltb_ℤ}
use p2p_live_streming_system.Words.{u16, u64}
use p2p_live_streming_system.Ebml.{Chank, get_chank, cluster_id}
use p2p_live_streming_system.Origin.{
  is_header_id, is_entered, analyze_loop, analyzed, analyze_chank_to_webm_header,
}
use p2p_live_streming_system.Ebml.Reach.{IsSized, chank_bytes_bounds, data_header_bounds}

-- How far one round goes.
abbrev pub advance : Chank → ℕ
advance c = if is_entered c then c.data_header_position else c.chank_bytes

module _ (total : ℕ) (buf : Buf) where
  abbrev pub chank_at : ℕ → Chank
  chank_at p = get_chank (shift buf p)

  -- `p` is reached from the start over whole header elements, each no larger than the file, and into
  -- Segments of a known size.
  pub data Walk : ℕ → Type 0 where
    here : Walk 0
    over :
        (p : ℕ) {q : ℕ}
        → Walk p
        → is_header_id (chank_at p).id ≡ true
        → (is_entered (chank_at p) ≡ true) ⊎ ((chank_at p).chank_bytes ≤ total)
        → q ≡ p + advance (chank_at p)
        → Walk q

  -- Each of the next `n` elements that the analysis meets from `p` on has a proper length field.
  abbrev pub WellSized : ℕ → ℕ → Type 0
  WellSized zero p = Unit {0}
  WellSized (suc n) p = buf p ≢ 0 → IsSized (shift buf p) × WellSized n (p + advance (chank_at p))

  -- Why the analysis stopped at `p`.
  abbrev pub Reason : ℤ → ℕ → Type 0
  Reason status p =
      ((status ≡ pos 0) × (buf p ≡ 0))
      ⊎ ((status ≡ pos 1) × (buf p ≢ 0) × ((chank_at p).id ≡ cluster_id))
      ⊎ ((status ≡ negsuc 0) × (total < (chank_at p).chank_bytes))
      ⊎ ((status ≡ negsuc 1)
          × (is_header_id (chank_at p).id ≡ false)
          × ((chank_at p).id ≢ cluster_id))

  pub record Stops (size : ℕ) (status : ℤ) (p : ℕ) : Type 0 where
    pub walk : Walk p
    pub reason : Reason status p
    pub inside : buf p ≢ 0 → p < size

  abbrev pub Returns : ℕ → Option (ℤ × ℕ) → Type 0
  Returns size none = ⊥
  Returns size (some (status, p)) = Stops size status p

  -- One round.
  analyze_round :
      (fuel size p : ℕ)
      → (buf p ≢ 0 → p + advance (chank_at p) < 2 ^ 64)
      → (buf p ≢ 0 → p < size)
      → Walk p
      → (buf p ≢ 0
          → Walk (p + advance (chank_at p))
          → Returns size (analyze_loop fuel total buf (p + advance (chank_at p))))
      → Returns size (analyze_loop (suc fuel) total buf p)
  unfolding analyze_loop
  analyze_round fuel size p wide inside w again = elim (Bool-cases (buf p == 0)) [
    | inl z ↦ rw z (stops (inl (refl, (==_iff _ _).0 z)))
    | inr z ↦ elim (Bool-cases (is_entered (chank_at p))) [
      | inl e ↦ rw (z, e) (next _ (rw e refl) (entered e) (inl e) (apart z))
      | inr e ↦ elim (Bool-cases (is_header_id (chank_at p).id)) [
        | inl h ↦ elim (Bool-cases (ltb total (chank_at p).chank_bytes)) [
          | inl large ↦ rw (z, e, h, large) (stops (inr (inr (inl (refl, ltb→lt _ _ large)))))
          | inr fits ↦ rw (z, e, h, fits) (next _ (rw e refl) h (inr (ground arith)) (apart z))
        ]
        | inr h ↦ elim (Bool-cases ((chank_at p).id == cluster_id)) [
          | inl c ↦ rw (z, e, h, c) (stops (inr (inl (refl, apart z, (==_iff _ _).0 c))))
          | inr c ↦ rw (z, e, h, c) (stops (inr (inr (inr (refl, h, other c)))))
        ]
      ]
    ]
  ]
    where
      stops : {status : ℤ} → Reason status p → Stops size status p
      stops r = record { walk = w; reason = r; inside = inside }

      apart : (buf p == 0) ≡ false → buf p ≢ 0
      apart z = ground arith

      other : ((chank_at p).id == cluster_id) ≡ false → (chank_at p).id ≢ cluster_id
      other c = ground arith

      entered : is_entered (chank_at p) ≡ true → is_header_id (chank_at p).id ≡ true
      entered e = ground arith

      wrap : buf p ≢ 0 → u64 (p + advance (chank_at p)) ≡ p + advance (chank_at p)
      wrap z = omega (arith, wide z)

      next :
          (k : ℕ)
          → advance (chank_at p) ≡ k
          → is_header_id (chank_at p).id ≡ true
          → (is_entered (chank_at p) ≡ true) ⊎ ((chank_at p).chank_bytes ≤ total)
          → buf p ≢ 0
          → Returns size (analyze_loop fuel total buf (u64 (p + k)))
      next k e h fits z = rw (← e) (rw (wrap z) (again z (over p w h fits refl)))

  advance_bounds :
      (p : ℕ)
      → ((i : ℕ) → IsByte (buf i))
      → IsSized (shift buf p)
      → (2 ≤ advance (chank_at p)) × (advance (chank_at p) ≤ 2 ^ 57)
  advance_bounds p h sized = ground (
    arith,
    chank_bytes_bounds (shift buf p) (λ i. h (p + i)) sized,
    data_header_bounds (shift buf p) (λ i. h (p + i)) sized,
  )

  in_buffer : (size p : ℕ) → ((i : ℕ) → size ≤ i → buf i ≡ 0) → buf p ≢ 0 → p < size
  in_buffer size p zeros z = elim (Bool-cases (ltb p size)) [
    | inl l ↦ ltb→lt p size l
    | inr l ↦ absurd (z (zeros p (ground arith)))
  ]

  analyze_loop_lem :
      (k size p : ℕ)
      → ((i : ℕ) → IsByte (buf i))
      → ((i : ℕ) → size ≤ i → buf i ≡ 0)
      → size < 2 ^ 62
      → size ≤ p + k
      → WellSized (suc k) p
      → Walk p
      → Returns size (analyze_loop (suc k) total buf p)
  analyze_loop_lem zero size p h zeros small enough sized w =
      analyze_round zero size p (λ z. absurd (z (zeros p (omega arith)))) (in_buffer size p zeros) w
        λ z next. absurd (z (zeros p (omega arith)))
  analyze_loop_lem (suc k) size p h zeros small enough sized w =
      analyze_round (suc k) size p
        (λ z. omega (arith, in_buffer size p zeros z, advance_bounds p h (sized z).0))
        (in_buffer size p zeros) w
        λ z next.
          analyze_loop_lem k size (p + advance (chank_at p)) h zeros small
            (omega (arith, advance_bounds p h (sized z).0)) (sized z).1 next

  pub analyze_chank_to_webm_header_lem :
      (size total_bytes : ℕ)
      → ((i : ℕ) → IsByte (buf i))
      → ((i : ℕ) → size ≤ i → buf i ≡ 0)
      → size < 2 ^ 62
      → WellSized (suc size) 0
      → (status : ℤ) × (p : ℕ) × (Stops size status p)
        × (analyze_chank_to_webm_header (suc size) total buf total_bytes
            ≡ some (status, if ltb_ℤ (pos 0) status then u16 p else total_bytes))
  unfolding analyze_chank_to_webm_header
  analyze_chank_to_webm_header_lem size total_bytes h zeros small sized =
      found (analyze_loop (suc size) total buf 0)
        (analyze_loop_lem size size 0 h zeros small (omega arith) sized here)
    where
      found :
          (o : Option (ℤ × ℕ))
          → Returns size o
          → (status : ℤ) × (p : ℕ) × (Stops size status p)
            × (analyzed total_bytes o
                ≡ some (status, if ltb_ℤ (pos 0) status then u16 p else total_bytes))
      found none bad = absurd bad
      found (some (status, p)) s = (status, p, s, refl)
