-- ===== src/Origin/Cluster/Ready.antt =====
-- A cluster that stands in the origin's file with its size (UpdateClusterFromWebM in
-- src/common/webm_parser.c).
use p2p_live_streming_system.Prelude.{
  ℕ, suc, ◌+◌, ◌-◌, ◌^◌, ◌≤◌, ◌<◌, ◌≡◌, refl, ap, ◌∙◌, List, ◌++◌, some, Bool, true, false, not,
  ◌&&◌, ◌==◌, ltb, if◌then◌else◌, arith, length, length-append, Buf, at, at-append, at-append_left,
  read, read-ext_below, read-at,
}
use p2p_live_streming_system.Words.{u32}
use p2p_live_streming_system.Ebml.{get_chank, cluster_id, update_data_buf, footer}
use p2p_live_streming_system.Ebml.Header.{cluster_header, get_chank-header}
use p2p_live_streming_system.Fault.{ok, ◌>>=◌}
use p2p_live_streming_system.Store.{Cluster}
use p2p_live_streming_system.Store.Seek.{length-cluster_header}
use p2p_live_streming_system.Program.{Program, with_store}
use p2p_live_streming_system.Origin.Read.{check_webm_size, import_count, import_webm}
use p2p_live_streming_system.Origin.Cluster.{
  same_bytes, is_cluster_header, renew_cluster_for_read, wait_header, header_loop, is_short,
  data_loop, read_data, after_header, after_wait, update_cluster_from_webm,
}

-- FOOTER has no size below the reserved one.
not_footer : (d : ℕ) → d < 2 ^ 56 - 1 → same_bytes (cluster_header d) footer ≡ false
unfolding update_data_buf
not_footer d h = ground arith

-- What the first CheckWebMSize leaves, and ImportWebM behind it.
abbrev sized : Program → List ℕ → Program
sized p file = record p {
  store = (let s = p.store in record s { file = file; total_file_bytes = length file });
}

abbrev checked : Program → List ℕ → Program
checked p file = record p {
  current_read_bytes = 12;
  store =
      (let s = p.store in
        record s { file = file; total_file_bytes = length file; position = s.position + 12 });
}

-- CURRENT_CLUSTER for a cluster of `d` bytes at `start`.
abbrev pub read_cluster : ℕ → ℕ → Cluster → Cluster → Cluster
read_cluster d start cluster prev = record cluster {
  info = record {
    id = cluster_id;
    id_bytes = 4;
    data_header_position = 12;
    data_bytes = d;
    chank_bytes = 12 + d;
  };
  pos = start;
  option = 0;
  seq = if prev.option == 0xffff_ffff then 0 else u32 (prev.seq + 1);
}

-- What UpdateClusterFromWebM leaves then.
abbrev pub with_cluster : Program → List ℕ → ℕ → Cluster → Cluster → Program
with_cluster p file d cluster prev =
    let q = checked p file in
    with_store q
      (let s = q.store in record s { clusters = some (read_cluster d p.fpos_r cluster prev, prev) })

module _ (p : Program) (old : Buf) (pre rest : List ℕ) (d : ℕ) (file : List ℕ)
    (holds : file ≡ pre ++ (cluster_header d ++ rest)) (small : d < 2 ^ 56 - 1)
    (room : d ≤ length rest) (grows : p.store.total_file_bytes ≤ length file)
    (here : p.store.position ≡ length pre) (mark : p.fpos_r ≡ length pre) where
  size : length file ≡ length pre + 12 + length rest
  unfolding update_data_buf
  size = rw holds (
      omega (
        arith,
        length-append pre (cluster_header d ++ rest),
        length-append (cluster_header d) rest,
      ))

  wait_header_lem :
      (fuel : ℕ) (files : ℕ → List ℕ)
      → files 0 ≡ file
      → wait_header fuel files p ≡ some (sized p file, 1)
  unfolding wait_header check_webm_size
  wait_header_lem fuel files e = rw (e, grown, enough) refl
    where
      grown :
          (if ltb p.store.total_file_bytes (length file)
            then length file
            else p.store.total_file_bytes)
          ≡ length file
      grown = ground arith

      enough : ltb (length file) (p.fpos_r + 12) ≡ false
      enough = ground (arith, size, mark)

  count : import_count (sized p file) 12 ≡ 12
  count = ground (arith, size, mark, here)

  imported : (import_webm (sized p file) old 12).1 ≡ checked p file
  unfolding import_webm
  imported =
      ap
        (λ n. record p {
          current_read_bytes = n;
          store =
              (let s = p.store in
                record s {
                  file = file;
                  total_file_bytes = length file;
                  position = s.position + n;
                });
        })
        count

  buf : Buf
  buf = (import_webm (sized p file) old 12).0

  buf-header : (i : ℕ) → i < 12 → buf i ≡ at (cluster_header d) i
  unfolding import_webm buf
  buf-header i h =
      rw (count, asked, here, holds) (at-append pre (cluster_header d ++ rest) i ∙ in_header i h)
    where
      asked : ltb i 12 ≡ true
      asked = ground arith

      in_header : (j : ℕ) → j < 12 → at (cluster_header d ++ rest) j ≡ at (cluster_header d) j
      in_header j k =
          at-append_left (cluster_header d) rest j (omega (arith, length-cluster_header d))

  header_read : read 12 buf ≡ cluster_header d
  unfolding update_data_buf
  header_read =
      read-ext_below 12 buf (at (cluster_header d)) buf-header
      ∙ read-at 12 (cluster_header d) (omega (arith, length-cluster_header d))

  is_header : is_cluster_header buf ≡ true
  is_header =
      known ((get_chank buf).id == cluster_id) (same_bytes (read 12 buf) footer)
        (ap (λ k. k.id == cluster_id) (get_chank-header d buf small buf-header))
        (ap (λ l. same_bytes l footer) header_read ∙ not_footer d small)
    where
      known : (a b : Bool) → a ≡ true → b ≡ false → (a && not b) ≡ true
      known a b e f = ground arith

  header_loop_lem :
      (fuel k : ℕ) (files : ℕ → List ℕ)
      → header_loop (suc fuel) old old files k (sized p file) ≡ ok (some (checked p file, buf, k))
  unfolding header_loop buf
  header_loop_lem fuel k files = rw (is_header, imported) refl

  data_loop_lem :
      (fuel k : ℕ) (files : ℕ → List ℕ) (q : Program)
      → q.store.total_file_bytes ≡ length file
      → q.fpos_r ≡ p.fpos_r
      → data_loop (suc fuel) old files k (12 + d) q ≡ ok (some q)
  unfolding data_loop
  data_loop_lem fuel k files q total fpos = rw enough refl
    where
      enough : is_short q (12 + d) ≡ false
      enough = ground (arith, size, room, mark, total, fpos)

  read_data_lem :
      (fuel : ℕ) (files : ℕ → List ℕ) (cluster prev : Cluster)
      → read_data (suc fuel) old files (checked p file) buf 1 (some (cluster, prev))
        ≡ ok (some (with_cluster p file d cluster prev))
  unfolding read_data renew_cluster_for_read
  read_data_lem fuel files cluster prev =
      rw (get_chank-header d buf small buf-header)
        (data_loop_lem fuel 1 files (with_cluster p file d cluster prev) refl refl)

  -- When the file holds, where FP stands, the header of a cluster whose size is written and all data
  -- of the cluster, UpdateClusterFromWebM returns at once and sends nothing: CURRENT_CLUSTER is this
  -- cluster, with the number that follows the one before, and FP stands behind its header.
  pub update_cluster_from_webm-ready :
      (fuel : ℕ) (files : ℕ → List ℕ) (cluster prev : Cluster)
      → files 0 ≡ file
      → p.store.clusters ≡ some (cluster, prev)
      → update_cluster_from_webm (suc fuel) old files p
        ≡ ok (some (with_cluster p file d cluster prev))
  unfolding update_cluster_from_webm
  update_cluster_from_webm-ready fuel files cluster prev e clusters =
      ap (after_wait (suc fuel) old files) (wait_header_lem (suc fuel) files e)
      ∙ ap (λ r. r >>= after_header (suc fuel) old files) (header_loop_lem fuel 1 files)
      ∙ ap (read_data (suc fuel) old files (checked p file) buf 1) clusters
      ∙ read_data_lem fuel files cluster prev
