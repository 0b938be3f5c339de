-- ===== src/Store/Append.antt =====
-- The last lines of AssembleBlock, from InsertBlockToCluster on (src/common/webm_parser.c).
use p2p_live_streming_system.Prelude.{
  ℕ, ◌+◌, ◌^◌, ◌<◌, ◌≡◌, refl, sym, ap, ◌∙◌, List, [], ◌++◌, Option, some, none, Bool, true, false,
  if◌then◌else◌, arith, length, length-read, Buf, shift, read,
}
use p2p_live_streming_system.Words.{u64}
use p2p_live_streming_system.Wire.{copy_bytes_to_block_info}
use p2p_live_streming_system.Block.{shift_to_pre_block}
use p2p_live_streming_system.Fault.{ok, err, null_pointer}
use p2p_live_streming_system.Store.{
  Cluster, Store, export_webm, update_cluster_to_webm, update_cluster_data_bytes_to_webm,
  seek_abs_webm, renew_cluster_for_write, shift_to_pre_cluster,
}
use p2p_live_streming_system.Store.Assemble.{
  next_cluster, check_cluster_seq, insert_block_to_cluster, append_block,
}
use p2p_live_streming_system.Store.Recording.{
  Recording, Represents, Takes, Refines, finish, add_block,
}
use p2p_live_streming_system.Store.Refine.{
  export_webm-end, next_cluster-Represents, append-Represents,
}

-- The store after the block `q` of `bytes` is written to `u`.
abbrev written : Store → Buf → ℕ → ℕ → Store
written u q bytes n =
    let s = export_webm u (read bytes (shift q 18)) in
    record s {
      current_blockinfo = copy_bytes_to_block_info q;
      total_file_bytes = s.total_file_bytes + n;
      total_block_num = u64 (s.total_block_num + 1);
      current_block = shift_to_pre_block s.current_block;
      current_block_num = s.current_block_num + 1;
    }

written-Takes :
    (r : Recording) (u : Store) (c prev : Cluster) (size : List ℕ) (q : Buf) (bytes n : ℕ)
    → Represents r u c prev size
    → u.current_block_num ≡ 0
    → bytes ≡ (copy_bytes_to_block_info q).bytes
    → u.current_block.info ≡ copy_bytes_to_block_info q
    → u.latest_block_seq ≡ (copy_bytes_to_block_info q).seq
    → Takes
        (record { closed = r.closed; payload = r.payload ++ read bytes (shift q 18) })
        (copy_bytes_to_block_info q)
        (written u q bytes n)
unfolding export_webm shift_to_pre_block
written-Takes r u c prev size q bytes n h num count info latest = record {
  cluster = c;
  prev = prev;
  size = size;
  represents =
      append-Represents r u c prev size h num (written u q bytes n) (read bytes (shift q 18)) refl
        (export_webm-end r u c prev size h (read bytes (shift q 18))) refl (omega (arith, num))
        (sym count ∙ sym (length-read bytes (shift q 18)));
  latest = latest;
  before = info;
}

next_cluster-keeps :
    (t : Store) (c prev : Cluster)
    → ((next_cluster t c prev).current_block ≡ t.current_block)
      × ((next_cluster t c prev).latest_block_seq ≡ t.latest_block_seq)
unfolding next_cluster renew_cluster_for_write shift_to_pre_cluster export_webm
    update_cluster_to_webm update_cluster_data_bytes_to_webm seek_abs_webm
next_cluster-keeps t c prev = (refl, refl)

next_cluster-num : (t : Store) (c prev : Cluster) → (next_cluster t c prev).current_block_num ≡ 0
unfolding next_cluster
next_cluster-num t c prev = refl

append_block_lem :
    (t : Store) (c prev : Cluster) (q : Buf) (n : ℕ)
    → t.clusters ≡ some (c, prev)
    → append_block t q n
      ≡ ok (
          written
            (if check_cluster_seq t then next_cluster t c prev else t)
            q
            t.current_block.info.bytes
            n)
unfolding append_block insert_block_to_cluster
append_block_lem t c prev q n h = go t.clusters h
  where
    go :
        (o : Option (Cluster × Cluster))
        → o ≡ some (c, prev)
        → (elim o [
          | none ↦ err null_pointer
          | some (d, e) ↦ ok (
              written
                (if check_cluster_seq t then next_cluster t d e else t)
                q
                t.current_block.info.bytes
                n)
        ])
          ≡ ok (
              written
                (if check_cluster_seq t then next_cluster t c prev else t)
                q
                t.current_block.info.bytes
                n)
    go o e = rw e

-- The last lines of AssembleBlock: the data goes behind the block before, or into a new cluster.
pub append_block-Refines :
    (r : Recording) (t : Store) (c prev : Cluster) (size : List ℕ) (q : Buf) (n : ℕ)
    → Represents r t c prev size
    → length r.payload < 2 ^ 56
    → t.current_block_num ≡ 0
    → t.current_block.info ≡ copy_bytes_to_block_info q
    → t.latest_block_seq ≡ (copy_bytes_to_block_info q).seq
    → Refines r
        (check_cluster_seq t)
        (copy_bytes_to_block_info q)
        (ok (read t.current_block.info.bytes (shift q 18)))
        (append_block t q n)
append_block-Refines r t c prev size q n h small num info latest =
    rw (append_block_lem t c prev q n h.clusters) (split (check_cluster_seq t))
  where
    bytes : ℕ
    bytes = t.current_block.info.bytes

    split :
        (new : Bool)
        → Takes
            (add_block new (read bytes (shift q 18)) r)
            (copy_bytes_to_block_info q)
            (written (if new then next_cluster t c prev else t) q bytes n)
    split true =
        written-Takes (record { closed = finish r; payload = [] }) (next_cluster t c prev) _ _ _ q
          bytes n (next_cluster-Represents r t c prev size h small) (next_cluster-num t c prev)
          (ap (λ i. i.bytes) info) (ap (λ b. b.info) (next_cluster-keeps t c prev).0 ∙ info)
          ((next_cluster-keeps t c prev).1 ∙ latest)
    split false = written-Takes r t c prev size q bytes n h num (ap (λ i. i.bytes) info) info latest
