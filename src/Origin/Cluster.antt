-- ===== src/Origin/Cluster.antt =====
-- The next header and the next cluster in the file that grows (src/common/webm_parser.c:
-- UpdateWebMHeaderFromWebM, RenewClusterForRead, UpdateClusterFromWebM; src/common/p2p.c:
-- InitChildBlocks). `files k` is the file that the `k`-th call of `fstat` finds; `none` is out of fuel.
pub mod Ready
pub mod Found
pub mod Small
use p2p_live_streming_system.Prelude.{
  ℕ, zero, suc, ◌+◌, ◌-◌, List, [], ◌∷◌, Option, none, some, Bool, true, false, not, ◌&&◌, ◌==◌,
  ltb, if◌then◌else◌, length, read, Buf,
}
use p2p_live_streming_system.Prelude.Int.{ℤ, pos, negsuc, ltb_ℤ}
use p2p_live_streming_system.Words.{u32}
use p2p_live_streming_system.Ebml.{Chank, get_chank, cluster_id, cluster_header_bytes, footer}
use p2p_live_streming_system.Block.{Block, zero_info, renew_block}
use p2p_live_streming_system.Fault.{
  Result, ok, err, endless_loop, null_pointer, buffer_overflow, exited, ◌>>=◌,
}
use p2p_live_streming_system.Store.{Cluster, Store}
use p2p_live_streming_system.Node.{Node}
use p2p_live_streming_system.Program.{Program, with_store}
use p2p_live_streming_system.Program.Cache.{send_mul_stream}
use p2p_live_streming_system.Origin.{analyze_chank_to_webm_header}
use p2p_live_streming_system.Origin.Read.{check_webm_size, import_webm, seek_abs_r, seek_rlt_r}

-- The size of the buffer of UpdateWebMHeaderFromWebM.
abbrev pub header_buffer : ℕ → ℕ
header_buffer total = if ltb 1024 total then 1024 else total

-- The memcpy of `bytes` bytes to WEBM_HEADER.data, as the memory that it points to allows.
abbrev pub copy_header : Program → ℕ → Option ℕ → Result (Program × Bool)
copy_header p bytes none = if bytes == 0 then ok (p, true) else err null_pointer
copy_header p bytes (some room) = if ltb room bytes then err buffer_overflow else ok (p, true)

-- What is done with the value of AnalyzeChankToWebMHeader: whether the loop is left. Only for a file of
-- more than 1024 bytes is memory allocated before the copy.
abbrev pub header_found : Program → Buf → Option (ℤ × ℕ) → Result (Program × Bool)
header_found p buf none = err endless_loop
header_found p buf (some (status, total_bytes)) =
    let q = seek_abs_r p 0 in
    let copied =
      with_store q (let s = q.store in record s { webm_header = read total_bytes buf }) in
    if ltb_ℤ (pos 0) status
    then (if ltb 1024 p.store.total_file_bytes
        then ok (record copied { header_memory = some total_bytes }, true)
        else copy_header copied total_bytes p.header_memory)
    else ok (p, false)

-- A round of UpdateWebMHeaderFromWebM on a file that has grown: the buffer is zeroed, and the stack
-- behind it holds `old`. The fuel of the analysis is that of a buffer of 1024 bytes.
unfoldable pub take_header : Buf → Program → Result (Program × Bool)
take_header old p =
    let bytes = header_buffer p.store.total_file_bytes in
    let (buf, q) = import_webm p (λ i. if ltb i bytes then 0 else old i) bytes in
    header_found q buf
      (analyze_chank_to_webm_header 1025 p.store.total_file_bytes buf (length p.store.webm_header))

-- One round.
unfoldable pub update_webm_header_round : Buf → Program → List ℕ → Result (Program × Bool)
update_webm_header_round old p file =
    let (q, grown) = check_webm_size p file in if grown then take_header old q else ok (q, false)

-- UpdateWebMHeaderFromWebM
unfoldable pub update_webm_header_from_webm :
    ℕ → Buf → (ℕ → List ℕ) → Program → Result (Option Program)
update_webm_header_from_webm zero old files p = ok none
update_webm_header_from_webm (suc fuel) old files p =
    update_webm_header_round old p (files 0) >>= λ (q, found).
    let rest = update_webm_header_from_webm fuel old (λ k. files (k + 1)) q in
    if found then ok (some q) else rest

-- RenewClusterForRead
unfoldable pub renew_cluster_for_read : Program → Buf → Cluster → Cluster → Cluster
renew_cluster_for_read p buf cluster prev = record cluster {
  info = get_chank buf;
  pos = p.fpos_r;
  option = 0;
  seq = if prev.option == 0xffff_ffff then 0 else u32 (prev.seq + 1);
}

-- `memcmp( file_buf , FOOTER , CLUSTER_HEADER_BYTES )`
abbrev pub same_bytes : List ℕ → List ℕ → Bool
same_bytes [] [] = true
same_bytes [] (b ∷ l) = false
same_bytes (a ∷ k) [] = false
same_bytes (a ∷ k) (b ∷ l) = a == b && same_bytes k l

-- The header of a cluster of known size.
abbrev pub is_cluster_header : Buf → Bool
is_cluster_header buf =
    (get_chank buf).id == cluster_id && not (same_bytes (read cluster_header_bytes buf) footer)

-- `while( CheckWebMSize(0,100000) <= 0 )`: the program, and how many calls of `fstat` were made.
unfoldable pub growth_loop : ℕ → (ℕ → List ℕ) → ℕ → Program → Option (Program × ℕ)
growth_loop zero files k p = none
growth_loop (suc fuel) files k p =
    let (q, grown) = check_webm_size p (files k) in
    let rest = growth_loop fuel files (k + 1) q in if grown then some (q, k + 1) else rest

-- The first part of UpdateClusterFromWebM.
unfoldable pub wait_header : ℕ → (ℕ → List ℕ) → Program → Option (Program × ℕ)
wait_header fuel files p =
    let (q, grown) = check_webm_size p (files 0) in
    if ltb q.store.total_file_bytes (q.fpos_r + cluster_header_bytes)
    then growth_loop fuel files 1 q
    else some (q, 1)

-- The loop that reads the header of the next cluster into `file_buf`, which holds `held`: the program, the header, and the calls made.
unfoldable pub header_loop :
    ℕ → Buf → Buf → (ℕ → List ℕ) → ℕ → Program → Result (Option (Program × Buf × ℕ))
header_loop zero old held files k p = ok none
header_loop (suc fuel) old held files k p =
    let (buf, q) = import_webm p held cluster_header_bytes in
    let again =
      (send_mul_stream old q >>= λ (r, ret).
      let (t, grown) = check_webm_size r (files k) in
      header_loop fuel old buf files (k + 1) (seek_rlt_r t (negsuc 11))) in
    if is_cluster_header buf then ok (some (q, buf, k)) else again

-- `(TOTAL_FILE_BYTES - CURRENT_FPOS_R.__pos) < chank_bytes`, where a negative rest is a large number.
abbrev pub is_short : Program → ℕ → Bool
is_short p chank_bytes =
    not (ltb p.store.total_file_bytes p.fpos_r)
    && ltb (p.store.total_file_bytes - p.fpos_r) chank_bytes

-- The loop that waits for the data of the cluster.
unfoldable pub data_loop : ℕ → Buf → (ℕ → List ℕ) → ℕ → ℕ → Program → Result (Option Program)
data_loop zero old files k chank_bytes p = ok none
data_loop (suc fuel) old files k chank_bytes p =
    let again =
      (send_mul_stream old p >>= λ (q, ret).
      data_loop fuel old files (k + 1) chank_bytes (check_webm_size q (files k)).0) in
    if is_short p chank_bytes then again else ok (some p)

-- RenewClusterForRead on CURRENT_CLUSTER, and the wait for the cluster's data.
unfoldable pub read_data :
    ℕ
    → Buf
    → (ℕ → List ℕ)
    → Program
    → Buf
    → ℕ
    → Option (Cluster × Cluster)
    → Result (Option Program)
read_data fuel old files p buf k none = err exited
read_data fuel old files p buf k (some (cluster, prev)) =
    let cluster' = renew_cluster_for_read p buf cluster prev in
    let q = with_store p (let s = p.store in record s { clusters = some (cluster', prev) }) in
    if cluster'.info.id == cluster_id
    then data_loop fuel old files k cluster'.info.chank_bytes q
    else err exited

-- UpdateClusterFromWebM behind the loop that reads the header, and behind the first wait.
abbrev pub after_header :
    ℕ → Buf → (ℕ → List ℕ) → Option (Program × Buf × ℕ) → Result (Option Program)
after_header fuel old files none = ok none
after_header fuel old files (some (p, buf, k)) = read_data fuel old files p buf k p.store.clusters

abbrev pub after_wait : ℕ → Buf → (ℕ → List ℕ) → Option (Program × ℕ) → Result (Option Program)
after_wait fuel old files none = ok none
after_wait fuel old files (some (p, k)) =
    header_loop fuel old old files k p >>= after_header fuel old files

-- UpdateClusterFromWebM; where it returns, it returns 1.
unfoldable pub update_cluster_from_webm : ℕ → Buf → (ℕ → List ℕ) → Program → Result (Option Program)
update_cluster_from_webm fuel old files p = after_wait fuel old files (wait_header fuel files p)

-- InitChildBlocks: `blocks` is what malloc returned.
unfoldable pub init_child_blocks : Program → (ℕ → Block) → Program
init_child_blocks p blocks = record p {
  node = (let n = p.node in record n { child_block = blocks });
}
