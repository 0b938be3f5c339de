-- ===== src/Origin/Main/Opened.antt =====
-- From the start of streaming to the first block (src/originsource/main.c, src/common/webm_parser.c).
mod Tests
use p2p_live_streming_system.Prelude.{
  ℕ, zero, suc, ◌+◌, ◌-◌, ◌^◌, ◌≤◌, ◌<◌, ◌≡◌, refl, sym, ap, ◌∙◌, List, ◌++◌, Option, none, some,
  Bool, true, false, if◌then◌else◌, arith, length, length-append, length-take, min, take, Buf, at,
  IsByte,
}
use p2p_live_streming_system.Prelude.Int.{ℤ, pos, ltb_ℤ}
use p2p_live_streming_system.Ebml.Header.{cluster_header}
use p2p_live_streming_system.Block.{Block, init_block, status_init}
use p2p_live_streming_system.Fault.{Result, ok, ◌>>=◌}
use p2p_live_streming_system.Store.{Cluster, Store, init_cluster}
use p2p_live_streming_system.Program.{Program}
use p2p_live_streming_system.Origin.Read.{seek_abs_r}
use p2p_live_streming_system.Origin.Read.Place.{next_place}
use p2p_live_streming_system.Origin.Header.{Stops, WellSized}
use p2p_live_streming_system.Origin.Cluster.{
  update_webm_header_round, update_webm_header_from_webm, update_cluster_from_webm,
  init_child_blocks,
}
use p2p_live_streming_system.Origin.Cluster.Found.{
  Left, window, cluster_place, update_webm_header_round_lem,
}
use p2p_live_streming_system.Origin.Cluster.Ready.{
  read_cluster, with_cluster, update_cluster_from_webm-ready,
}
use p2p_live_streming_system.Origin.Main.{started, after_webm_header, start_streaming}

-- The loop of UpdateWebMHeaderFromWebM is left after its first round.
header_at_once :
    (fuel : ℕ) (old : Buf) (files : ℕ → List ℕ) (p q : Program)
    → update_webm_header_round old p (files 0) ≡ ok (q, true)
    → update_webm_header_from_webm (suc fuel) old files p ≡ ok (some q)
unfolding update_webm_header_from_webm
header_at_once fuel old files p q e =
    ap
      (λ r. r >>= λ (q, found).
        let rest = update_webm_header_from_webm fuel old (λ k. files (k + 1)) q in
        if found then ok (some q) else rest)
      e

-- The program at the loop over the clusters, for a header of `place` bytes.
pub record Opened (file : List ℕ) (place : ℕ) (junk : ℕ → ℕ) (q : Program) : Type 0 where
  pub position : q.store.position ≡ place
  pub mark : q.fpos_r ≡ place
  pub header : q.store.webm_header ≡ take place file
  pub clusters : q.store.clusters ≡ some (init_cluster junk)
  pub block : q.store.current_block ≡ init_block

-- What the start of streaming does with the first file that it looks at.
abbrev pub Starts :
    ℕ → Buf → (ℕ → List ℕ) → (ℕ → ℕ) → (ℕ → Block) → Program → List ℕ → Bool → ℕ → Program → Type 0
Starts fuel old files junk blocks p file found place q =
    if found
    then (start_streaming (suc fuel) old files junk blocks p ≡ ok (some q))
      × Opened file place junk q
    else (start_streaming (suc fuel) old files junk blocks p
        ≡ start_streaming fuel old (λ k. files (k + 1)) junk blocks q)
      × (q.store.webm_header ≡ p.store.webm_header)

-- The program that the round leads to.
abbrev leads_to : (ℕ → ℕ) → (ℕ → Block) → Bool → Program → Program
leads_to junk blocks found q = if found then started junk blocks q else q

not_yet :
    (fuel : ℕ) (old : Buf) (files : ℕ → List ℕ) (p q : Program)
    → update_webm_header_round old p (files 0) ≡ ok (q, false)
    → update_webm_header_from_webm (suc fuel) old files p
      ≡ update_webm_header_from_webm fuel old (λ k. files (k + 1)) q
unfolding update_webm_header_from_webm
not_yet fuel old files p q e =
    ap
      (λ r. r >>= λ (q, found).
        let rest = update_webm_header_from_webm fuel old (λ k. files (k + 1)) q in
        if found then ok (some q) else rest)
      e

started-Opened :
    (junk : ℕ → ℕ) (blocks : ℕ → Block) (file : List ℕ) (place : ℕ) (q : Program)
    → place ≤ length file
    → q.store.webm_header ≡ take place file
    → Opened file place junk (started junk blocks q)
unfolding init_child_blocks seek_abs_r
started-Opened junk blocks file place q inside e = record {
  position = size;
  mark = size;
  header = e;
  clusters = refl;
  block = refl;
}
  where
    size : length q.store.webm_header ≡ place
    size = ap length e ∙ length-take place file ∙ ground (arith, inside)

round-Starts :
    (fuel : ℕ) (old : Buf) (files : ℕ → List ℕ) (junk : ℕ → ℕ) (blocks : ℕ → Block) (p : Program)
    (file : List ℕ) (status : ℤ) (place : ℕ) (q : Program) (found : Bool)
    → (found ≡ true → place ≤ length file)
    → ltb_ℤ (pos 0) status ≡ found
    → update_webm_header_round old p (files 0) ≡ ok (q, found)
    → Left p file status place q
    → Starts fuel old files junk blocks p file found place (leads_to junk blocks found q)
unfolding start_streaming
round-Starts fuel old files junk blocks p file status place q true inside sign e left = (
  ap (λ r. r >>= after_webm_header junk blocks) (header_at_once fuel old files p q e),
  started-Opened junk blocks file place q (inside refl) (rw sign at left).0,
)
round-Starts fuel old files junk blocks p file status place q false inside sign e left = (
  ap (λ r. r >>= after_webm_header junk blocks) (not_yet fuel old files p q e),
  (rw sign at left).0,
)

-- The start of streaming, when the first `fstat` finds a file that has grown to more than 1024 bytes,
-- FP is at its start, zeros are on the stack behind the buffer, and the elements have proper length
-- fields. If the analysis of the first 1024 bytes stops at a Cluster, the loop over the clusters is
-- reached at once: FP and CURRENT_FPOS_R stand at that Cluster, WEBM_HEADER has exactly the bytes of
-- the file before it, and CURRENT_CLUSTER and CURRENT_BLOCK are as InitCluster and InitBlock make them.
-- Otherwise WEBM_HEADER stays, and the program goes on to the next `fstat`.
pub start_streaming-Opened :
    (old : Buf) (p : Program) (file : List ℕ) (fuel : ℕ) (files : ℕ → List ℕ) (junk : ℕ → ℕ)
    (blocks : ℕ → Block)
    → files 0 ≡ file
    → 1024 < length file
    → ((i : ℕ) → IsByte (at file i))
    → ((i : ℕ) → 1024 ≤ i → old i ≡ 0)
    → p.store.total_file_bytes < length file
    → p.store.position ≡ 0
    → p.fpos_r ≡ 0
    → WellSized (length file) (at (window file)) 1025 0
    → (status : ℤ) × (place : ℕ) × (q : Program) × (Stops
        (length file)
        (at (window file))
        1024
        status
        place)
      × Starts fuel old files junk blocks p file (ltb_ℤ (pos 0) status) place q
start_streaming-Opened old p file fuel files junk blocks first large bytes stack grown start mark
      sized =
    let (status, place, q, stops, e, left) =
      update_webm_header_round_lem old p file large bytes stack grown start mark sized in
    (
      status,
      place,
      leads_to junk blocks (ltb_ℤ (pos 0) status) q,
      stops,
      round-Starts fuel old files junk blocks p file status place q (ltb_ℤ (pos 0) status)
          (λ h. omega (
            arith,
            large,
            cluster_place old p file large bytes stack grown start mark status place stops h,
          ))
          refl (ap (update_webm_header_round old p) first ∙ e) left,
    )
