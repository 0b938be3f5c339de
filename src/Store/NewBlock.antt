-- ===== src/Store/NewBlock.antt =====
-- AssembleBlock on a block that is not old, the change of the time code included.
use p2p_live_streming_system.Prelude.{
  ℕ, ◌+◌, ◌-◌, ◌^◌, ◌<◌, ◌≡◌, refl, sym, ap, ◌∙◌, List, Bool, true, false, not, ◌==◌, ltb,
  if◌then◌else◌, arith, length, Buf, shift, read, read-ext,
}
use p2p_live_streming_system.Wire.{BlockInfo, copy_bytes_to_block_info, blockinfo_bytes}
use p2p_live_streming_system.Fault.{Result, ok, err, ◌>>=◌}
use p2p_live_streming_system.Store.{Cluster, Store}
use p2p_live_streming_system.Store.Assemble.{
  flush_block, first_cluster, take_info, change_timecode, check_cluster_seq, append_block, retime,
  assemble_new,
}
use p2p_live_streming_system.Store.Recording.{Recording, Represents, Refines, block_data}
use p2p_live_streming_system.Store.Timecode.{changed_data, block_data_lem}
use p2p_live_streming_system.Store.Blocks.{Ready, SameFile, Represents-same, prepare-Ready}
use p2p_live_streming_system.Store.Append.{append_block-Refines}
use p2p_live_streming_system.Store.Retime.{Related, change_timecode-Related}

Refines-same :
    (r : Recording) {a b : Bool} {i j : BlockInfo} {x y : List ℕ} (m : Result Store)
    → a ≡ b
    → i ≡ j
    → x ≡ y
    → Refines r a i (ok x) m
    → Refines r b j (ok y) m
Refines-same r m e f g h = rw (← e, ← f, ← g) h

-- The memory whose first bytes are those of `p`, and behind them stands `q`.
abbrev with_info : Buf → Buf → Buf
with_info p q i = if ltb i blockinfo_bytes then p i else q (i - blockinfo_bytes)

copy_bytes-with_info :
    (p q : Buf) → copy_bytes_to_block_info (with_info p q) ≡ copy_bytes_to_block_info p
unfolding copy_bytes_to_block_info
copy_bytes-with_info p q = refl

with_info_behind : (p q : Buf) (i : ℕ) → with_info p q (18 + i) ≡ q i
with_info_behind p q i = rw (behind, same) refl
  where
    behind : ltb (18 + i) 18 ≡ false
    behind = ground arith

    same : 18 + i - 18 ≡ i
    same = omega arith

-- A block ready to be appended, with the memory that its data are read from.
append-Refines :
    (r : Recording) (u t : Store) (c prev : Cluster) (size : List ℕ) (p q : Buf) (n : ℕ)
    → Represents r u c prev size
    → length r.payload < 2 ^ 56
    → u.current_block_num ≡ 0
    → u.current_block.info ≡ copy_bytes_to_block_info p
    → SameFile u t
    → t.current_block ≡ u.current_block
    → copy_bytes_to_block_info q ≡ copy_bytes_to_block_info p
    → Refines r
        (check_cluster_seq u)
        (copy_bytes_to_block_info p)
        (ok (read (copy_bytes_to_block_info p).bytes (shift q 18)))
        (append_block (record t { latest_block_seq = t.current_block.info.seq }) q n)
append-Refines r u t c prev size p q n h small num info same block copy =
    Refines-same r (append_block t' q n)
      (ap (λ b. not (b.prev.cluster_seq == b.info.cluster_seq)) block) copy
      (ap (λ i. read i.bytes (shift q 18)) t_info)
      (append_block-Refines r t' c prev size q n
        (Represents-same r u t' c prev size
          (record {
            file = same.file;
            position = same.position;
            clusters = same.clusters;
            number = same.number;
            counted = same.counted;
          })
          h)
        small (same.number ∙ num) (t_info ∙ sym copy) (ap (λ i. i.seq) (t_info ∙ sym copy)))
  where
    t' : Store
    t' = record t { latest_block_seq = t.current_block.info.seq }

    t_info : t.current_block.info ≡ copy_bytes_to_block_info p
    t_info = ap (λ b. b.info) block ∙ info

-- The data of the block, as both sides have it once the time code is changed.
retimed-Refines :
    (r : Recording) (s u : Store) (c prev : Cluster) (size : List ℕ) (p : Buf) (n : ℕ)
    → Represents r u c prev size
    → length r.payload < 2 ^ 56
    → u.current_block_num ≡ 0
    → u.current_block.info ≡ copy_bytes_to_block_info p
    → (m m' : Result (Store × Buf)) → Related u m m'
    → Refines r
        (check_cluster_seq u)
        (copy_bytes_to_block_info p)
        (m >>= λ (t, q). ok (read (copy_bytes_to_block_info p).bytes q))
        (m'
          >>= (λ (t, q).
              ok (t, λ i. if ltb i blockinfo_bytes then p i else q (i - blockinfo_bytes)))
          >>= λ (t, q). append_block (record t { latest_block_seq = t.current_block.info.seq }) q n)
retimed-Refines r s u c prev size p n h small num info (ok (a, q)) (ok (b, q')) rel =
    Refines-same r
      (append_block (record b { latest_block_seq = b.current_block.info.seq }) (with_info p q') n)
      refl refl
      (read-ext (copy_bytes_to_block_info p).bytes _ _
        (λ i. with_info_behind p q' i ∙ sym (ap (λ f. f i) rel.0)))
      (append-Refines r u b c prev size p (with_info p q') n h small num info rel.1 rel.2
        (copy_bytes-with_info p q'))
retimed-Refines r s u c prev size p n h small num info (ok a) (err e) rel = absurd rel
retimed-Refines r s u c prev size p n h small num info (err e) (ok a) rel = absurd rel
retimed-Refines r s u c prev size p n h small num info (err e) (err f) rel = rel

abbrev pub is_new_cluster : Store → Buf → Bool
is_new_cluster s p =
    not (s.current_block.prev.cluster_seq == (copy_bytes_to_block_info p).cluster_seq)

Refines-flag :
    (r : Recording) {a b : Bool} (i : BlockInfo) (x : Result (List ℕ)) (m : Result Store)
    → a ≡ b
    → Refines r a i x m
    → Refines r b i x m
Refines-flag r i x m e h = rw (← e) h

assemble_new-Changed :
    (r : Recording) (s : Store) (c prev : Cluster) (size : List ℕ) (p : Buf) (n : ℕ)
    → Represents r s c prev size
    → length r.payload < 2 ^ 56
    → Refines r
        (is_new_cluster s p)
        (copy_bytes_to_block_info p)
        (changed_data s p)
        (assemble_new s c prev p n)
unfolding assemble_new retime
assemble_new-Changed r s c prev size p n h small =
    Refines-flag r info (changed_data s p) (assemble_new s c prev p n)
      (ap (λ b. not (b.cluster_seq == info.cluster_seq)) g.times.before) (split (info.seq == 1))
  where
    info : BlockInfo
    info = copy_bytes_to_block_info p

    u : Store
    u = take_info (flush_block (first_cluster s info) c prev) info

    g : Ready r s u prev
    g = prepare-Ready r s c prev size info h small

    split :
        (first : Bool)
        → Refines r
            (check_cluster_seq u)
            info
            (if first
              then (change_timecode s (shift p 18) >>= λ (t, q). ok (read info.bytes q))
              else ok (read info.bytes (shift p 18)))
            ((if first
                then (change_timecode u (shift p 18) >>= λ (t, q). ok (t, with_info p q))
                else ok (u, p))
              >>= λ (t, q).
                  append_block (record t { latest_block_seq = t.current_block.info.seq }) q n)
    split true =
        retimed-Refines r s u g.cluster prev g.size p n g.represents small g.counted refl
          (change_timecode s (shift p 18)) (change_timecode u (shift p 18))
          (change_timecode-Related s u (shift p 18) g.times)
    split false =
        append-Refines r u u g.cluster prev g.size p p n g.represents small g.counted refl
          (record { file = refl; position = refl; clusters = refl; number = refl; counted = refl })
          refl refl

pub assemble_new-Refines :
    (r : Recording) (s : Store) (c prev : Cluster) (size : List ℕ) (p : Buf) (n : ℕ)
    → Represents r s c prev size
    → length r.payload < 2 ^ 56
    → Refines r
        (is_new_cluster s p)
        (copy_bytes_to_block_info p)
        (block_data s p)
        (assemble_new s c prev p n)
assemble_new-Refines r s c prev size p n h small =
    rw⁻¹ (block_data_lem s p) (assemble_new-Changed r s c prev size p n h small)
