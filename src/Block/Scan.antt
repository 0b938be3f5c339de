-- ===== src/Block/Scan.antt =====
-- The loop of GetChankByBytes (src/common/webm_parser.c).
use p2p_live_streming_system.Prelude.{
  ℕ, zero, suc, ◌+◌, ◌^◌, ◌%◌, ◌≤◌, ◌<◌, ◌≡◌, ◌≢◌, ◌⊎◌, inl, inr, refl, arith, Option, none, some,
  Bool-cases, ltb, ◌==◌, ==_iff, ltb→lt, Buf, shift, IsByte, false,
}
use p2p_live_streming_system.Words.{u16}
use p2p_live_streming_system.Ebml.{get_chank, cluster_id, cue_id, timecode_id, simpleblock_id}
use p2p_live_streming_system.Ebml.Reach.{IsSized, chank_bytes_bounds}
use p2p_live_streming_system.Block.{
  Block, chank_loop, get_chank_by_bytes, cluster_end, only_timecode,
}

abbrev pub IsEnd : ℕ → Type 0
IsEnd id = (id ≡ cluster_id) ⊎ (id ≡ cue_id)

abbrev pub IsMedia : ℕ → Type 0
IsMedia id = (id ≡ timecode_id) ⊎ (id ≡ simpleblock_id)

module _ (buf : Buf) where
  abbrev pub id_at : ℕ → ℕ
  id_at p = (get_chank (shift buf p)).id

  abbrev pub next_at : ℕ → ℕ
  next_at p = p + (get_chank (shift buf p)).chank_bytes

  -- `p` is reached from the start over whole Timecode and SimpleBlock elements.
  pub data Walk : ℕ → Type 0 where
    here : Walk 0
    over : (p : ℕ) {q : ℕ} → Walk p → IsMedia (id_at p) → q ≡ next_at p → Walk q

  -- From `p` on, each of the next `n` elements that the scan meets has a proper length field.
  abbrev pub WellSized : ℕ → ℕ → ℕ → Type 0
  WellSized zero req p = Unit {0}
  WellSized (suc n) req p =
      IsSized (shift buf p) × (next_at p ≤ req → IsMedia (id_at p) → WellSized n req (next_at p))

  -- The scan stopped at `total` with `status`: there the cluster ends, or the next element does not
  -- fit, or it is of another kind.
  pub record Stops (req status total : ℕ) : Type 0 where
    pub walk : Walk total
    pub fits : total ≤ req
    pub empty : status ≡ 0 → total ≡ 0
    pub reason :
        ((status ≡ cluster_end) × IsEnd (id_at total))
        ⊎ ((status ≢ cluster_end)
            × ¬ IsEnd (id_at total)
            × ((req < next_at total) ⊎ ¬ IsMedia (id_at total)))

  abbrev pub Returns : ℕ → Option (ℕ × ℕ) → Type 0
  Returns req none = ⊥
  Returns req (some (status, total)) = Stops req status total

  IsMedia-apart :
      {id : ℕ} → (id == timecode_id) ≡ false → (id == simpleblock_id) ≡ false → ¬ IsMedia id
  IsMedia-apart t s = ground arith

  IsEnd-apart : {id : ℕ} → (id == cluster_id) ≡ false → (id == cue_id) ≡ false → ¬ IsEnd id
  IsEnd-apart a b = ground arith

  -- One round: it stops at `p`, or the next round starts behind a Timecode or SimpleBlock that fits.
  chank_round :
      (fuel req p status : ℕ)
      → next_at p < 2 ^ 64
      → p ≤ req
      → Walk p
      → (status ≡ 0 → p ≡ 0)
      → status ≢ cluster_end
      → ((next : ℕ)
          → next_at p ≤ req
          → IsMedia (id_at p)
          → 0 < next
          → next ≢ cluster_end
          → Returns req (chank_loop fuel buf req (next_at p) (next_at p) next))
      → Returns req (chank_loop (suc fuel) buf req p p status)
  unfolding chank_loop
  chank_round fuel req p status wide le w e ne again = elim (Bool-cases (id_at p == cluster_id)) [
    | inl a ↦ rw a (ends (inl ((==_iff _ _).0 a)))
    | inr a ↦ elim (Bool-cases (id_at p == cue_id)) [
      | inl b ↦ rw (a, b) (ends (inr ((==_iff _ _).0 b)))
      | inr b ↦ elim (Bool-cases (ltb req (next_at p))) [
        | inl big ↦ rw (a, b, wrap, big) (stops (IsEnd-apart a b) (inl (ltb→lt _ _ big)))
        | inr fits ↦ elim (Bool-cases (id_at p == timecode_id)) [
          | inl t ↦
              rw (a, b, wrap, fits, t)
                (again only_timecode (ground arith) (inl ((==_iff _ _).0 t)) (omega arith)
                  (omega arith))
          | inr t ↦ elim (Bool-cases (id_at p == simpleblock_id)) [
            | inl s ↦
                rw (a, b, wrap, fits, t, s)
                  (again 1 (ground arith) (inr ((==_iff _ _).0 s)) (omega arith) (omega arith))
            | inr s ↦
                rw (a, b, wrap, fits, t, s) (stops (IsEnd-apart a b) (inr (IsMedia-apart t s)))
          ]
        ]
      ]
    ]
  ]
    where
      wrap : next_at p % 2 ^ 64 ≡ next_at p
      wrap = omega arith

      ends : IsEnd (id_at p) → Stops req cluster_end p
      ends i = record {
        walk = w;
        fits = le;
        empty = λ z. absurd (omega arith);
        reason = inl (refl, i);
      }

      stops : ¬ IsEnd (id_at p) → (req < next_at p) ⊎ ¬ IsMedia (id_at p) → Stops req status p
      stops n r = record { walk = w; fits = le; empty = e; reason = inr (ne, n, r) }

  pub chank_loop_lem :
      (fuel req p status : ℕ)
      → ((i : ℕ) → IsByte (buf i))
      → req < 2 ^ 16
      → p ≤ req
      → req < p + fuel
      → WellSized fuel req p
      → Walk p
      → (status ≡ 0 → p ≡ 0)
      → status ≢ cluster_end
      → Returns req (chank_loop fuel buf req p p status)
  chank_loop_lem zero req p status h small le enough sized w e ne = absurd (omega arith)
  chank_loop_lem (suc fuel) req p status h small le enough sized w e ne =
      let bounds = chank_bytes_bounds (shift buf p) (λ i. h (p + i)) sized.0 in
      chank_round fuel req p status (omega (arith, bounds)) le w e ne λ next below m pos n.
        chank_loop_lem fuel req (next_at p) next h small below (omega (arith, bounds))
          (sized.1 below m) (over p w m refl) (λ z. absurd (omega arith)) n

  -- GetChankByBytes ends on every buffer whose elements have proper length fields: at most req + 1
  -- rounds are made. It then has taken whole Timecode and SimpleBlock elements of at most `req`
  -- bytes together, and it stopped because the cluster ends there, the next element does not fit, or
  -- the next element is of another kind. The value is 0 only if nothing was taken, and the bytes
  -- taken are added to the block, whose other members stay.
  pub get_chank_by_bytes_lem :
      (b : Block) (req : ℕ)
      → ((i : ℕ) → IsByte (buf i))
      → req < 2 ^ 16
      → WellSized (suc req) req 0
      → (status total : ℕ) × (get_chank_by_bytes b buf req
          ≡ some (status, record b { info = record b.info { bytes = u16 (b.info.bytes + total) } }))
        × Stops req status total
  unfolding get_chank_by_bytes
  get_chank_by_bytes_lem b req h small sized = found (chank_loop (suc req) buf req 0 0 0) refl (
      chank_loop_lem (suc req) req 0 0 h small (omega arith) (omega arith) sized here (λ _. refl)
        (omega arith))
    where
      found :
          (r : Option (ℕ × ℕ))
          → chank_loop (suc req) buf req 0 0 0 ≡ r
          → Returns req r
          → (status total : ℕ) × (get_chank_by_bytes b buf req
              ≡ some (
                status,
                record b { info = record b.info { bytes = u16 (b.info.bytes + total) } },
              ))
            × Stops req status total
      found none e bad = absurd bad
      found (some (status, total)) e s = (status, total, rw (e, get_chank_by_bytes), s)

  -- Where the scan has come to a SimpleBlock whose length field wraps its size to 0, GetChankByBytes
  -- never returns: no number of rounds ends the loop.
  pub chank_loop_hangs :
      (req p status : ℕ)
      → p ≤ req
      → req < 2 ^ 16
      → id_at p ≡ simpleblock_id
      → (get_chank (shift buf p)).chank_bytes ≡ 0
      → (fuel : ℕ) → chank_loop fuel buf req p p status ≡ none
  unfolding chank_loop
  chank_loop_hangs req p status le small i z zero = refl
  chank_loop_hangs req p status le small i z (suc fuel) =
      ground (arith, chank_loop_hangs req p 1 le small i z fuel, stay)
    where
      stay : (p + (get_chank (shift buf p)).chank_bytes) % 2 ^ 64 ≡ p
      stay = omega arith
