-- ===== src/Scheduler.antt =====
-- src/scheduler.cpp: the ready queue, the flags that `notify` and `suspend_until` share under the
-- mutex, and the timer's length.
pub mod Queue
pub mod History
pub mod Deadline
pub mod Suspend
use Prim.Native.Nat.{max}
use fiberio.Base.{
  ℕ, ◌+◌, ◌-◌, ◌/◌, ◌^◌, Bool, true, false, not, List, [], ◌∷◌, ◌++◌, Option, none, some, leb, ◌==◌,
  if◌then◌else◌,
}

-- The fields of `scheduler`; a fiber's context is its number.
pub record Scheduler : Type 0 where
  pub queue : List ℕ
  pub wake_up : Bool
  pub suspended : Bool

abbrev pub new : Scheduler
new = record { queue = []; wake_up = false; suspended = false }

-- `awakened(fiber)`
unfoldable pub awakened : ℕ → Scheduler → Scheduler
awakened fiber s = record s { queue = s.queue ++ fiber ∷ [] }

-- `pick_next()`; `none` is the null pointer.
unfoldable pub pick_next : Scheduler → Option ℕ × Scheduler
pick_next s = elim s.queue [
  | [] ↦ (none, s)
  | fiber ∷ rest ↦ (some fiber, record s { queue = rest })
]

-- `has_ready_fibers()`
unfoldable pub has_ready_fibers : Scheduler → Bool
has_ready_fibers s = elim s.queue [ [] ↦ false | _ ∷ _ ↦ true ]

-- The four functions that hold the mutex.
unfoldable pub suspend_enter : Scheduler → Bool × Scheduler
suspend_enter s = (s.wake_up, record s { suspended = true })

unfoldable pub should_wake_up : Scheduler → Bool
should_wake_up s = s.wake_up

unfoldable pub suspend_exit : Scheduler → Scheduler
suspend_exit s = record s { wake_up = false; suspended = false }

unfoldable pub update_notify : Scheduler → Bool × Scheduler
update_notify s = (s.suspended, record s { wake_up = true })

-- Times are in nanoseconds of the steady clock.
abbrev pub nanoseconds : ℕ
nanoseconds = 10 ^ 6

-- `milliseconds_until(abs_time)` at the time `now`
unfoldable pub milliseconds_until : ℕ → ℕ → ℕ
milliseconds_until now abs_time = if leb abs_time now then 0 else (abs_time - now) / nanoseconds + 1

-- `is_max_time(abs_time)`
unfoldable pub is_max_time : ℕ → Bool
is_max_time abs_time = abs_time == 2 ^ 63 - 1

-- The timer that `suspend_until` sets, if any.
unfoldable pub timer_length : ℕ → ℕ → Option ℕ
timer_length now abs_time =
    if is_max_time abs_time then none else some (max 1 (milliseconds_until now abs_time))
