-- ===== src/Origin/Main/Opened/Tests.antt =====
-- The origin at the start of a file with a header of 18 bytes.
use p2p_live_streming_system.Prelude.{
  ℕ, refl, [], arith, length, at, replicate, append-IsByte, replicate-IsByte,
}
use p2p_live_streming_system.Prelude.Int.{ℤ, pos, ltb_ℤ}
use p2p_live_streming_system.Program.{Program}
use p2p_live_streming_system.Program.Tests.{first}
use p2p_live_streming_system.Origin.Tests.{
  header, header_bytes, starting, long_file, long-Met, Met-WellSized,
}
use p2p_live_streming_system.Origin.Cluster.Found.{window}
use p2p_live_streming_system.Origin.Header.{Stops}
use p2p_live_streming_system.Origin.Main.Opened.{Starts, start_streaming-Opened}

start_streaming-Opened_example :
    (status : ℤ) × (place : ℕ) × (q : Program) × (Stops
      (length long_file)
      (at (window long_file))
      1024
      status
      place)
    × Starts 0
        (at [])
        (λ k. long_file)
        (λ k. k)
        (λ i. first)
        starting
        long_file
        (ltb_ℤ (pos 0) status)
        place
        q
start_streaming-Opened_example =
    start_streaming-Opened (at []) starting long_file 0 (λ k. long_file) (λ k. k) (λ i. first) refl
      (omega arith)
      (append-IsByte header (replicate 1000 0) header_bytes
        λ i. replicate-IsByte 1000 0 i (omega arith))
      (λ i h. refl) (omega arith) refl refl
      (Met-WellSized (length long_file) (at (window long_file)) long-Met 1021)
