-- ===== src/Store/Clock.antt =====
-- TIMECODE_OFFSET and its flag through AssembleBlock (src/common/webm_parser.c).
use p2p_live_streming_system.Prelude.{
  ℕ, ◌+◌, ◌^◌, ◌<◌, ◌≡◌, refl, sym, ap, ◌∙◌, List, Option, some, none, Bool, Bool-cases, true,
  false, inl, inr, not, ◌&&◌, ◌==◌, ltb, if◌then◌else◌, arith, length, Buf, shift,
}
use p2p_live_streming_system.Words.{u64}
use p2p_live_streming_system.Wire.{BlockInfo, copy_bytes_to_block_info}
use p2p_live_streming_system.Ebml.{Chank, get_chank, carry, timecode_id}
use p2p_live_streming_system.Ebml.Length.{big_endian, carry_mod}
use p2p_live_streming_system.Fault.{
  Result, ok, err, null_pointer, buffer_overflow, exited, Ensures, Ensures-map, Ensures-then,
}
use p2p_live_streming_system.Store.{
  Cluster, Store, export_webm, update_cluster_to_webm, update_cluster_data_bytes_to_webm,
  seek_abs_webm, renew_cluster_for_write, shift_to_pre_cluster,
}
use p2p_live_streming_system.Store.Assemble.{
  flush_block, first_cluster, take_info, changed, change_timecode, packet_room, retime,
  check_cluster_seq, next_cluster, insert_block_to_cluster, append_block, assemble_new,
}
use p2p_live_streming_system.Store.Recording.{Recording, Represents}
use p2p_live_streming_system.Store.Blocks.{SameTimes, Ready, prepare-Ready}

-- The number in the element at the start of a block's data, as a u64.
abbrev pub time_in : Buf → ℕ
time_in p = let c = get_chank p in u64 (big_endian c.data_bytes (shift p c.data_header_position) 0)

-- The first time code that a peer gets, in the first block of a cluster, sets TIMECODE_OFFSET, and
-- nothing else does.
abbrev pub HasClock : Store → Buf → Store → Type 0
HasClock s p t =
    let first = (copy_bytes_to_block_info p).seq == 1 in
    (t.is_get_timecode_offset ≡ (if first then true else s.is_get_timecode_offset))
    × (t.timecode_offset ≡ (
        if first && not s.is_get_timecode_offset
        then u64 (time_in (shift p 18) + s.node_timecode_offset)
        else s.timecode_offset))

-- Two stores with the same TIMECODE_OFFSET.
abbrev SameClock : Store → Store → Type 0
SameClock s t =
    (t.is_get_timecode_offset ≡ s.is_get_timecode_offset) × (t.timecode_offset ≡ s.timecode_offset)

append_block-SameClock : (t : Store) (q : Buf) (n : ℕ) → Ensures (SameClock t) (append_block t q n)
unfolding append_block insert_block_to_cluster next_cluster renew_cluster_for_write
    shift_to_pre_cluster export_webm update_cluster_to_webm update_cluster_data_bytes_to_webm
    seek_abs_webm
append_block-SameClock t q n = go _ t.clusters λ c prev. elim (Bool-cases (check_cluster_seq t)) [
  | inl e ↦ rw e (refl, refl)
  | inr e ↦ rw e (refl, refl)
]
  where
    go :
        (f : Cluster → Cluster → Store) (o : Option (Cluster × Cluster))
        → ((c prev : Cluster) → SameClock t (f c prev))
        → Ensures
            (SameClock t)
            (elim o [ none ↦ err null_pointer | some (c, prev) ↦ ok (f c prev) ])
    go f none h = tt
    go f (some (c, prev)) h = h c prev

-- ChangeTimecode on the element `c`.
changed-HasClock :
    (s u : Store) (p : Buf)
    → SameTimes s u
    → ((copy_bytes_to_block_info p).seq == 1) ≡ true
    → Ensures (λ (t, q). HasClock s p t) (changed u (shift p 18) (get_chank (shift p 18)))
changed-HasClock s u p same first = elim (Bool-cases s.is_get_timecode_offset) [
  | inl e ↦ rw (first, same.is_get, e) (refl, same.offset)
  | inr e ↦ rw (first, same.is_get, e) (refl, time)
]
  where
    c : Chank
    c = get_chank (shift p 18)

    time :
        u64 (
          carry c.data_bytes (shift (shift p 18) c.data_header_position) 0 + u.node_timecode_offset)
        ≡ u64 (time_in (shift p 18) + s.node_timecode_offset)
    time =
        rw
          (
            carry_mod c.data_bytes (shift (shift p 18) c.data_header_position) 0 (omega arith),
            same.node_offset,
          )
          refl

change_timecode-HasClock :
    (s u : Store) (p : Buf)
    → SameTimes s u
    → ((copy_bytes_to_block_info p).seq == 1) ≡ true
    → Ensures (λ (t, q). HasClock s p t) (change_timecode u (shift p 18))
unfolding change_timecode
change_timecode-HasClock s u p same first =
    guarded ((get_chank (shift p 18)).id == timecode_id) (ltb packet_room _)
      (changed u (shift p 18) (get_chank (shift p 18))) (changed-HasClock s u p same first)
  where
    guarded :
        (is_time past : Bool) (r : Result (Store × Buf))
        → Ensures (λ (t, q). HasClock s p t) r
        → Ensures
            (λ (t, q). HasClock s p t)
            (if is_time then (if past then err buffer_overflow else r) else err exited)
    guarded false past r h = tt
    guarded true true r h = tt
    guarded true false r h = h

retime-HasClock :
    (s u : Store) (p : Buf)
    → SameTimes s u
    → u.current_block.info ≡ copy_bytes_to_block_info p
    → Ensures (λ (t, q). HasClock s p t) (retime u p)
unfolding retime
retime-HasClock s u p same info = elim (Bool-cases (u.current_block.info.seq == 1)) [
  | inl e ↦ rw e (
      Ensures-then (λ (t, q). HasClock s p t) (λ (t, q). HasClock s p t)
        (change_timecode u (shift p 18)) _ (change_timecode-HasClock s u p same (test ∙ e))
        λ (t, q) h. h)
  | inr e ↦ rw (e, test ∙ e) (same.is_get, same.offset)
]
  where
    test : ((copy_bytes_to_block_info p).seq == 1) ≡ (u.current_block.info.seq == 1)
    test = ap (λ i. i.seq == 1) (sym info)

pub assemble_new-HasClock :
    (r : Recording) (s : Store) (c prev : Cluster) (size : List ℕ) (p : Buf) (n : ℕ)
    → Represents r s c prev size
    → length r.payload < 2 ^ 56
    → Ensures (HasClock s p) (assemble_new s c prev p n)
unfolding assemble_new
assemble_new-HasClock r s c prev size p n h small =
    Ensures-then (λ (t, q). HasClock s p t) (HasClock s p) (retime u p) _
      (retime-HasClock s u p g.times refl)
      λ (t, q) clock.
        Ensures-map _ (HasClock s p) _ (λ v same. (same.0 ∙ clock.0, same.1 ∙ clock.1))
          (append_block-SameClock (record t { latest_block_seq = t.current_block.info.seq }) q n)
  where
    info : BlockInfo
    info = copy_bytes_to_block_info p

    u : Store
    u = take_info (flush_block (first_cluster s info) c prev) info

    g : Ready r s u prev
    g = prepare-Ready r s c prev size info h small
