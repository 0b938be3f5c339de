-- ===== src/Store/Timecode.antt =====
-- The time code in the first block of a cluster (ChangeTimecode in src/common/webm_parser.c).
use p2p_live_streming_system.Prelude.{
  ℕ, zero, suc, ◌+◌, ◌-◌, ◌*◌, ◌/◌, ◌%◌, ◌^◌, ◌≤◌, ◌<◌, ◌≡◌, refl, sym, ap, ◌∙◌, List, ◌∷◌, ◌++◌,
  Bool-cases, true, false, inl, inr, ◌&&◌, ◌==◌, ltb, leb, if◌then◌else◌, arith, length,
  length-append, length-read, take, Buf, shift, at, at-append, at-append_left, read, read-ext_below,
  read-at,
}
use p2p_live_streming_system.Words.{u64}
use p2p_live_streming_system.Wire.{copy_bytes_to_block_info}
use p2p_live_streming_system.Ebml.{Chank, get_chank, carry, timecode_id, update_data_buf}
use p2p_live_streming_system.Ebml.Length.{big_endian, carry_mod}
use p2p_live_streming_system.Fault.{Result, ok, err, buffer_overflow, exited, ◌>>=◌}
use p2p_live_streming_system.Store.{Store}
use p2p_live_streming_system.Store.Assemble.{patch, changed, change_timecode, packet_room}
use p2p_live_streming_system.Store.Recording.{
  spelled, relative_time, replaced, first_data, block_data,
}

at-read : (n i : ℕ) (p : Buf) → i < n → at (read n p) i ≡ p i
at-read zero i p h = absurd (omega arith)
at-read (suc n) zero p h = refl
at-read (suc n) (suc i) p h = at-read n i (λ j. p (suc j)) (omega arith)

-- Memory with some bytes replaced, as a list.
module _ (n : ℕ) (p : Buf) (place : ℕ) (bytes : List ℕ) where
  behind : Buf
  behind = shift p (place + length bytes)

  whole : List ℕ
  whole = read place p ++ (bytes ++ read n behind)

  at_front : (i : ℕ) → i < place → at whole i ≡ p i
  unfolding whole
  at_front i h =
      at-append_left (read place p) (bytes ++ read n behind) i
        (omega (arith, h, length-read place p))
      ∙ at-read place i p h

  at_bytes : (j : ℕ) → j < length bytes → at whole (place + j) ≡ at bytes j
  unfolding whole
  at_bytes j h =
      ap (λ k. at (read place p ++ (bytes ++ read n behind)) (k + j)) (sym (length-read place p))
      ∙ at-append (read place p) (bytes ++ read n behind) j
      ∙ at-append_left bytes (read n behind) j h

  at_behind : (j : ℕ) → j < n → at whole (place + (length bytes + j)) ≡ p (place + length bytes + j)
  unfolding whole behind
  at_behind j h =
      ap (λ k. at (read place p ++ (bytes ++ read n behind)) (k + (length bytes + j)))
        (sym (length-read place p))
      ∙ at-append (read place p) (bytes ++ read n behind) (length bytes + j)
      ∙ at-append bytes (read n behind) j
      ∙ at-read n j behind h

  patched : (i : ℕ) → i < n → patch p place bytes i ≡ at whole i
  patched i h = elim (Bool-cases (ltb i place)) [
    | inl e ↦ rw (before e) (sym (at_front i (ground arith)))
    | inr e ↦ elim (Bool-cases (ltb i (place + length bytes))) [
      | inl f ↦
          rw (within e f)
            (sym (at_bytes (i - place) (ground (arith, e, f))) ∙ ap (at whole) (from e))
      | inr f ↦
          let j = i - place - length bytes in
          rw (beyond f) (
            ap p (far e f)
            ∙ sym (at_behind j (omega (arith, h)))
            ∙ ap (at whole) (sym (far_grouped e f)))
    ]
  ]
    where
      far :
          ltb i place ≡ false
          → ltb i (place + length bytes) ≡ false
          → i ≡ place + length bytes + (i - place - length bytes)
      far e f = ground (arith, e, f)

      far_grouped :
          ltb i place ≡ false
          → ltb i (place + length bytes) ≡ false
          → i ≡ place + (length bytes + (i - place - length bytes))
      far_grouped e f = ground (arith, e, f)

      beyond :
          ltb i (place + length bytes) ≡ false
          → (leb place i && ltb i (place + length bytes)) ≡ false
      beyond f = ground (arith, f)

      from : ltb i place ≡ false → place + (i - place) ≡ i
      from e = ground (arith, e)

      before : ltb i place ≡ true → (leb place i && ltb i (place + length bytes)) ≡ false
      before e = ground (arith, e)

      within :
          ltb i place ≡ false
          → ltb i (place + length bytes) ≡ true
          → (leb place i && ltb i (place + length bytes)) ≡ true
      within e f = ground (arith, e, f)

  read-patch : read n (patch p place bytes) ≡ take n (read place p ++ (bytes ++ read n behind))
  unfolding whole
  read-patch = read-ext_below n (patch p place bytes) (at whole) patched ∙ read-at n whole long
    where
      long : n ≤ length whole
      long = omega (
        arith,
        length-append (read place p) (bytes ++ read n behind),
        length-append bytes (read n behind),
        length-read n behind,
      )

spelled_lem : (k v : ℕ) → update_data_buf k v ≡ spelled k v
unfolding update_data_buf spelled
spelled_lem zero v = refl
spelled_lem (suc k) v = ap (λ l. (v / 2 ^ (8 * k) % 256) ∷ l) (spelled_lem k v)

length-spelled : (k v : ℕ) → length (spelled k v) ≡ k
unfolding spelled
length-spelled zero v = refl
length-spelled (suc k) v = omega (arith, length-spelled k v)

-- The bytes that ChangeTimecode leaves, of which `n` are written.
replaced_lem :
    (n : ℕ) (p : Buf) (place k v : ℕ)
    → read n (patch p place (update_data_buf k v)) ≡ replaced n p place k v
unfolding behind
replaced_lem n p place k v =
    ap (λ l. read n (patch p place l)) (spelled_lem k v)
    ∙ read-patch n p place (spelled k v)
    ∙ ap (λ j. take n (read place p ++ (spelled k v ++ read n (shift p (place + j)))))
        (length-spelled k v)

-- The new number.
relative_lem :
    (s : Store) (time : ℕ)
    → let s' = if s.is_get_timecode_offset then s else record s {
      timecode_offset = u64 (time + s.node_timecode_offset);
      is_get_timecode_offset = true;
    } in
      u64 (time + s'.node_timecode_offset + 2 ^ 64 - s'.timecode_offset) ≡ relative_time s time
relative_lem s time = elim (Bool-cases s.is_get_timecode_offset) [
  | inl e ↦ rw e refl
  | inr e ↦ rw e (omega arith)
]

changed_lem :
    (s : Store) (n : ℕ) (p : Buf) (c : Chank)
    → (changed s p c >>= λ (t, q). ok (read n q))
      ≡ ok (
          replaced n p c.data_header_position c.data_bytes
            (relative_time s (u64 (big_endian c.data_bytes (shift p c.data_header_position) 0))))
changed_lem s n p c = ap ok (
    replaced_lem n p c.data_header_position c.data_bytes _
    ∙ ap (replaced n p c.data_header_position c.data_bytes) (
        relative_lem s (carry c.data_bytes (shift p c.data_header_position) 0)
        ∙ ap (relative_time s)
            (carry_mod c.data_bytes (shift p c.data_header_position) 0 (omega arith))))

-- What AssembleBlock writes of a block, by ChangeTimecode.
abbrev pub changed_data : Store → Buf → Result (List ℕ)
changed_data s p =
    let info = copy_bytes_to_block_info p in
    if info.seq == 1
    then (change_timecode s (shift p 18) >>= λ (t, q). ok (read info.bytes q))
    else ok (read info.bytes (shift p 18))

first_data_lem :
    (s : Store) (n : ℕ) (p : Buf)
    → (change_timecode s p >>= λ (t, q). ok (read n q)) ≡ first_data s n p (get_chank p)
unfolding change_timecode
first_data_lem s n p = split (get_chank p)
  where
    split :
        (c : Chank)
        → ((if c.id == timecode_id
              then (if ltb packet_room (c.data_header_position + c.data_bytes)
                  then err buffer_overflow
                  else changed s p c)
              else err exited)
            >>= λ (t, q). ok (read n q))
          ≡ first_data s n p c
    split c = elim (Bool-cases (c.id == timecode_id)) [
      | inr e ↦ rw e refl
      | inl e ↦ elim (Bool-cases (ltb packet_room (c.data_header_position + c.data_bytes))) [
        | inl f ↦ rw (e, f) refl
        | inr f ↦ rw (e, f) (changed_lem s n p c)
      ]
    ]

pub block_data_lem : (s : Store) (p : Buf) → changed_data s p ≡ block_data s p
block_data_lem s p = elim (Bool-cases ((copy_bytes_to_block_info p).seq == 1)) [
  | inl e ↦ rw e (first_data_lem s (copy_bytes_to_block_info p).bytes (shift p 18))
  | inr e ↦ rw e refl
]
