-- ===== src/Scheduler/Deadline.antt =====
-- The timer of `suspend_until` against the time that it waits for.
use fiberio.Base.{ℕ, ◌+◌, ◌*◌, ◌≤◌, ◌<◌, ◌≡◌, arith, some}
use fiberio.Scheduler.{nanoseconds, milliseconds_until, timer_length}

-- A timer that is set for a time to come runs at least a millisecond, does not end before that
-- time, and ends at most a millisecond after it.
pub timer_bounds :
    (now abs_time ms : ℕ)
    → now < abs_time
    → timer_length now abs_time ≡ some ms
    → (1 ≤ ms)
      × (abs_time < now + ms * nanoseconds)
      × (now + ms * nanoseconds ≤ abs_time + nanoseconds)
unfolding timer_length milliseconds_until
timer_bounds now abs_time ms h e = ground arith
