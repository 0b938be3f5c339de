-- ===== src/Time/Tests.antt =====
-- Time stamps with and without a borrow.
use p2p_live_streming_system.Prelude.{◌≡◌, refl, if◌then◌else◌}
use p2p_live_streming_system.Prelude.Int.{pos, ◌+ℤ◌, ◌-ℤ◌, ◌*ℤ◌, ltb_ℤ}
use p2p_live_streming_system.Wire.{Timeval}
use p2p_live_streming_system.Time.{update_timestamp}
use p2p_live_streming_system.Time.Elapsed.{update_timestamp_lem}

abbrev start : Timeval
start = record { tv_sec = pos 10; tv_usec = pos 900000 }

abbrev now : Timeval
now = record { tv_sec = pos 12; tv_usec = pos 100000 }

-- 1.2 seconds have passed, and the stamp says 0.3.
stamp_lem :
    update_timestamp start now
    ≡ record { tv_sec = pos 1; tv_usec = (pos 100000 -ℤ pos 900000) +ℤ pos 100000 }
unfolding update_timestamp ◌-ℤ◌
stamp_lem = refl

update_timestamp_lem_example :
    let stamp = update_timestamp start now in
    stamp.tv_sec *ℤ pos 1000000
      +ℤ stamp.tv_usec
      +ℤ (if ltb_ℤ now.tv_usec start.tv_usec then pos 900000 else pos 0)
    ≡ (now.tv_sec -ℤ start.tv_sec) *ℤ pos 1000000 +ℤ (now.tv_usec -ℤ start.tv_usec)
update_timestamp_lem_example = update_timestamp_lem start now
