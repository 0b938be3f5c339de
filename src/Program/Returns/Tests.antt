-- ===== src/Program/Returns/Tests.antt =====
-- A child before the first block of a cluster that is in the file.
use p2p_live_streming_system.Prelude.{
  ℕ, suc, ◌≡◌, refl, [], ◌∷◌, ◌++◌, arith, at, shift, replicate, append-IsByte, replicate-IsByte,
  Buf,
}
use p2p_live_streming_system.Ebml.{footer, get_chank, get_ebml_id, get_data_bytes, msb_scan, carry}
use p2p_live_streming_system.Ebml.Reach.{IsSized}
use p2p_live_streming_system.Block.Scan.{WellSized, IsMedia, id_at, next_at}
use p2p_live_streming_system.Block.Total.{IsScannable}
use p2p_live_streming_system.Fault.{ok}
use p2p_live_streming_system.Store.Seek.{cal_offset, cluster_offset, search_webm}
use p2p_live_streming_system.Node.Tests.{one_child}
use p2p_live_streming_system.Node.Invariant.{Counted}
use p2p_live_streming_system.Program.{Program}
use p2p_live_streming_system.Program.Cache.{send_mul_stream, block_buffer}
use p2p_live_streming_system.Program.Progress.{Streamed}
use p2p_live_streming_system.Program.Gets.{Sent}
use p2p_live_streming_system.Program.Returns.{HasBytes, send_mul_stream-returns}
use p2p_live_streming_system.Program.Tests.{program, first, first-IsReady, elements, empty_cluster}

abbrev pub serving : Program
serving = record program { node = (let n = one_child in record n { child_block = λ i. first }) }

pub serving-Counted : Counted serving.node
serving-Counted = record { count = refl; bits = omega arith }

pub serving-HasBytes : HasBytes (at []) serving.store
serving-HasBytes = record {
  file =
      append-IsByte (11 ∷ 12 ∷ footer) (elements ++ (footer ++ replicate 1000 7)) (ground arith) (
        append-IsByte elements (footer ++ replicate 1000 7) (ground arith) (
          append-IsByte footer (replicate 1000 7) (ground arith)
            λ i. replicate-IsByte 1000 7 i (omega arith)));
  memory = λ i. omega arith;
}

meets-WellSized :
    (buf : Buf) (n req p k : ℕ)
    → IsSized (shift buf p)
    → next_at buf p ≡ k
    → WellSized buf n req k
    → WellSized buf (suc n) req p
meets-WellSized buf n req p k s e w = (s, λ fits media. rw e w)

ends-WellSized :
    (buf : Buf) (n req p : ℕ)
    → IsSized (shift buf p)
    → ¬ IsMedia (id_at buf p)
    → WellSized buf (suc n) req p
ends-WellSized buf n req p s e = (s, λ fits media. absurd (e media))

-- The lengths of the two elements and of the Cluster behind them.
abbrev pub Met : Buf → Type 0
Met buf =
    IsSized (shift buf 0)
    × (next_at buf 0 ≡ 3)
    × IsSized (shift buf 3)
    × (next_at buf 3 ≡ 8)
    × IsSized (shift buf 8)
    × ¬ IsMedia (id_at buf 8)

pub Met-WellSized : (buf : Buf) → Met buf → WellSized buf 1001 1000 0
Met-WellSized buf (s0, e0, s1, e1, s2, e2) =
    meets-WellSized buf 1000 1000 0 3 s0 e0
      (meets-WellSized buf 999 1000 3 8 s1 e1 (ends-WellSized buf 998 1000 8 s2 e2))

first-Met : Met (shift (block_buffer serving.store (at []) first) 0)
unfolding get_chank get_ebml_id get_data_bytes msb_scan carry cal_offset cluster_offset search_webm
first-Met = (
  λ z. absurd (omega arith),
  refl,
  λ z. absurd (omega arith),
  refl,
  λ z. absurd (omega arith),
  λ m. ground arith,
)

pub first-IsScannable : IsScannable 0 (block_buffer serving.store (at []) first)
unfolding IsScannable
first-IsScannable = Met-WellSized (shift (block_buffer serving.store (at []) first) 0) first-Met

send_mul_stream-returns_example :
    (q : Program) × (ret : ℕ) × (send_mul_stream (at []) serving ≡ ok (q, ret))
    × (Streamed 0 serving q ret)
    × Sent (at []) 0 serving q
send_mul_stream-returns_example =
    send_mul_stream-returns (at []) serving (record empty_cluster { seq = 1 }) empty_cluster refl
      serving-Counted serving-HasBytes
      λ i h lagging. record { ready = first-IsReady; scannable = first-IsScannable }
