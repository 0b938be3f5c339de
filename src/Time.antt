-- ===== src/Time.antt =====
-- Time stamps (src/common/wrapper.c: UpdateTimestamp, DiffCurrentTime, IsExceedTime). The value of
-- `gettimeofday` is an argument.
mod Tests
pub mod Elapsed
use p2p_live_streming_system.Prelude.{ℕ, Bool, true, false, ◌&&◌, if◌then◌else◌}
use p2p_live_streming_system.Prelude.Int.{ℤ, pos, negsuc, ◌+ℤ◌, ◌-ℤ◌, ltb_ℤ}
use p2p_live_streming_system.Wire.{Timeval}

abbrev pub seconds : ℕ → Timeval
seconds n = record { tv_sec = pos n; tv_usec = pos 0 }

-- UpdateTimestamp: `start` is START_TIMESTAMP.
unfoldable pub update_timestamp : Timeval → Timeval → Timeval
update_timestamp start now =
    let sec = now.tv_sec -ℤ start.tv_sec in
    let usec = now.tv_usec -ℤ start.tv_usec in
    if ltb_ℤ usec (pos 0)
    then record { tv_sec = sec -ℤ pos 1; tv_usec = usec +ℤ pos 100000 }
    else record { tv_sec = sec; tv_usec = usec }

-- DiffCurrentTime
unfoldable pub diff_current_time : Timeval → Timeval → Timeval → Timeval
diff_current_time start now timestamp =
    let current = update_timestamp start now in
    record {
      tv_sec = current.tv_sec -ℤ timestamp.tv_sec;
      tv_usec = current.tv_usec -ℤ timestamp.tv_usec;
    }

abbrev pub eq_ℤ : ℤ → ℤ → Bool
eq_ℤ a b = if ltb_ℤ a b then false else if ltb_ℤ b a then false else true

-- IsExceedTime
unfoldable pub is_exceed_time : Timeval → Timeval → Bool
is_exceed_time exceed_time tv =
    if ltb_ℤ tv.tv_sec exceed_time.tv_sec
    then true
    else if eq_ℤ exceed_time.tv_sec tv.tv_sec && ltb_ℤ tv.tv_usec exceed_time.tv_usec
    then true
    else false
