-- ===== src/EventFlag/Deadline.antt =====
-- The absolute time that a wait with a timeout hands to the kernel.
use android_system_libfmq.Base.{ℕ, ◌+◌, ◌*◌, ◌^◌, ◌<◌, ◌≡◌, arith}
use android_system_libfmq.EventFlag.{Timespec, nanos_per_second, add_nanoseconds_to_current_time}

-- A time in nanoseconds.
abbrev pub total : Timespec → ℕ
total t = t.tv_sec * nanos_per_second + t.tv_nsec

-- The clock at a time whose nanoseconds are less than a second, and a timeout that is not negative:
-- the deadline is the clock's time and the timeout, and its nanoseconds are less than a second.
pub add_nanoseconds_to_current_time_lem :
    (nanos : ℕ) (now : Timespec)
    → nanos < 2 ^ 63
    → now.tv_sec < 2 ^ 62
    → now.tv_nsec < nanos_per_second
    → let t = add_nanoseconds_to_current_time nanos now in
      (total t ≡ total now + nanos) × (t.tv_nsec < nanos_per_second) × (t.tv_sec < 2 ^ 63)
unfolding add_nanoseconds_to_current_time
add_nanoseconds_to_current_time_lem nanos now h k normal = ground arith
