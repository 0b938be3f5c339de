-- ===== src/Store/Retime.antt =====
-- ChangeTimecode does the same for stores that agree on the time code (src/common/webm_parser.c).
use p2p_live_streming_system.Prelude.{
  ℕ, ◌+◌, ◌-◌, ◌^◌, ◌≡◌, ◌⊎◌, refl, sym, ap, Bool, true, false, Bool-cases, inl, inr, ◌==◌, ltb,
  if◌then◌else◌, arith, Buf, shift,
}
use p2p_live_streming_system.Words.{u64}
use p2p_live_streming_system.Ebml.{Chank, get_chank, timecode_id, carry, update_data_buf}
use p2p_live_streming_system.Fault.{Result, ok, err, buffer_overflow}
use p2p_live_streming_system.Store.{Store}
use p2p_live_streming_system.Store.Assemble.{change_timecode, patch, changed, packet_room}
use p2p_live_streming_system.Store.Blocks.{SameTimes, SameFile}

-- ChangeTimecode on two stores with the same members for the time code: the same memory, and
-- nothing else of the store is changed.
abbrev pub Related : Store → Result (Store × Buf) → Result (Store × Buf) → Type 0
Related u (ok (a, q)) (ok (b, q')) = (q ≡ q') × SameFile u b × (b.current_block ≡ u.current_block)
Related u (ok a) (err e) = ⊥
Related u (err e) (ok a) = ⊥
Related u (err e) (err f) = e ≡ f

-- The store with the offset that the first time code gives.
abbrev offset_taken : Bool → Store → ℕ → Store
offset_taken have s timestamp = if have then s else record s {
  timecode_offset = u64 (timestamp + s.node_timecode_offset);
  is_get_timecode_offset = true;
}

record SameOffsets (u a b : Store) : Type 0 where
  node_offset : a.node_timecode_offset ≡ b.node_timecode_offset
  offset : a.timecode_offset ≡ b.timecode_offset
  file : SameFile u b
  block : b.current_block ≡ u.current_block

offset_taken-SameOffsets :
    (s u : Store) (timestamp : ℕ) (a b : Bool)
    → SameTimes s u
    → b ≡ a
    → SameOffsets u (offset_taken a s timestamp) (offset_taken b u timestamp)
offset_taken-SameOffsets s u timestamp true true same e = record {
  node_offset = sym same.node_offset;
  offset = sym same.offset;
  file = record { file = refl; position = refl; clusters = refl; number = refl; counted = refl };
  block = refl;
}
offset_taken-SameOffsets s u timestamp false false same e = record {
  node_offset = sym same.node_offset;
  offset = ap (λ x. u64 (timestamp + x)) (sym same.node_offset);
  file = record { file = refl; position = refl; clusters = refl; number = refl; counted = refl };
  block = refl;
}
offset_taken-SameOffsets s u timestamp true false same e = absurd (ground arith)
offset_taken-SameOffsets s u timestamp false true same e = absurd (ground arith)

pub change_timecode-Related :
    (s u : Store) (p : Buf) → SameTimes s u → Related u (change_timecode s p) (change_timecode u p)
unfolding change_timecode
change_timecode-Related s u p same = elim (Bool-cases ((get_chank p).id == timecode_id)) [
  | inl e ↦ rw e (in_room (Bool-cases (ltb packet_room (c.data_header_position + c.data_bytes))))
  | inr e ↦ rw e refl
]
  where
    c : Chank
    c = get_chank p

    modified :
        {a b x y : ℕ} (t : ℕ) → a ≡ b → x ≡ y → u64 (t + a + 2 ^ 64 - x) ≡ u64 (t + b + 2 ^ 64 - y)
    modified t f g = rw (f, g) refl

    in_room :
        (b : (ltb packet_room (c.data_header_position + c.data_bytes) ≡ true)
          ⊎ (ltb packet_room (c.data_header_position + c.data_bytes) ≡ false))
        → Related u
            (if ltb packet_room (c.data_header_position + c.data_bytes)
              then err buffer_overflow
              else changed s p c)
            (if ltb packet_room (c.data_header_position + c.data_bytes)
              then err buffer_overflow
              else changed u p c)
    in_room (inl f) = rw f refl
    in_room (inr f) =
        let timestamp = carry c.data_bytes (shift p c.data_header_position) 0 in
        let o =
          offset_taken-SameOffsets s u timestamp s.is_get_timecode_offset u.is_get_timecode_offset
            same same.is_get in
        rw f (
          ap (λ t. patch p c.data_header_position (update_data_buf c.data_bytes t))
              (modified timestamp o.node_offset o.offset),
          o.file,
          o.block,
        )
