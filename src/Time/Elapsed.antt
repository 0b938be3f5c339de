-- ===== src/Time/Elapsed.antt =====
-- What a time stamp says of the time since the start.
use p2p_live_streming_system.Prelude.{
  Bool-cases, inl, inr, ◌+◌, ◌*◌, ◌≡◌, ◌<◌, ◌⊎◌, ◌↔◌, true, arith, if◌then◌else◌,
}
use p2p_live_streming_system.Prelude.Int.{
  ℤ, pos, pos_part, neg_part, ◌+ℤ◌, ◌-ℤ◌, ◌*ℤ◌, ltb_ℤ, int_laws,
}
use p2p_live_streming_system.Wire.{Timeval}
use p2p_live_streming_system.Time.{update_timestamp, is_exceed_time}

abbrev pub ◌<ℤ◌ : ℤ → ℤ → Type 0
◌<ℤ◌ a b = pos_part a + neg_part b < pos_part b + neg_part a

-- IsExceedTime is the strict lexicographic order of the two members.
pub is_exceed_time_lem :
    (d t : Timeval)
    → (is_exceed_time d t ≡ true)
      ↔ (◌<ℤ◌ t.tv_sec d.tv_sec ⊎ ((d.tv_sec ≡ t.tv_sec) × ◌<ℤ◌ t.tv_usec d.tv_usec))
unfolding is_exceed_time
is_exceed_time_lem d t = (λ h. ground arith, λ h. ground arith)

million_parts :
    (a : ℤ)
    → pos_part (a *ℤ pos 1000000) + 1000000 * neg_part a
      ≡ neg_part (a *ℤ pos 1000000) + 1000000 * pos_part a
unfolding ◌*ℤ◌
million_parts a = ground arith

ruleset micro_laws = (int_laws, million_parts)

borrow_test : (a b : ℤ) → ltb_ℤ (a -ℤ b) (pos 0) ≡ ltb_ℤ a b
unfolding ◌-ℤ◌
borrow_test a b = ground arith

borrowed :
    (s u : ℤ)
    → (s -ℤ pos 1) *ℤ pos 1000000 +ℤ (u +ℤ pos 100000) +ℤ pos 900000 ≡ s *ℤ pos 1000000 +ℤ u
borrowed s u = omega micro_laws

kept : (s u : ℤ) → s *ℤ pos 1000000 +ℤ u +ℤ pos 0 ≡ s *ℤ pos 1000000 +ℤ u
kept s u = omega micro_laws

-- In microseconds the stamp is the time since the start, except that a borrow from the seconds
-- gives back only 100000 of the 1000000 microseconds: then the stamp is 900000 short.
pub update_timestamp_lem :
    (start now : Timeval)
    → let stamp = update_timestamp start now in
      stamp.tv_sec *ℤ pos 1000000
        +ℤ stamp.tv_usec
        +ℤ (if ltb_ℤ now.tv_usec start.tv_usec then pos 900000 else pos 0)
      ≡ (now.tv_sec -ℤ start.tv_sec) *ℤ pos 1000000 +ℤ (now.tv_usec -ℤ start.tv_usec)
unfolding update_timestamp
update_timestamp_lem start now = elim (Bool-cases (ltb_ℤ now.tv_usec start.tv_usec)) [
  | inl e ↦ rw (borrow_test now.tv_usec start.tv_usec, e) (borrowed _ _)
  | inr e ↦ rw (borrow_test now.tv_usec start.tv_usec, e) (kept _ _)
]
