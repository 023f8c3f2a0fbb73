-- ===== src/Scheduler/Suspend.antt =====
-- `suspend_until` on the scheduler's thread, `notify` on any thread, and libuv's event loop between
-- them, one step at a time. Each function that holds the mutex is one step.
pub mod Wakeup
pub mod Progress
use fiberio.Base.{
  ℕ, ◌≡◌, ◌≢◌, Bool, true, false, not, ◌&&◌, ◌||◌, List, [], ◌∷◌, Option, none, some, ◌==◌,
  if◌then◌else◌, arith,
}
use fiberio.Scheduler.{
  Scheduler, new, awakened, pick_next, has_ready_fibers, suspend_enter, should_wake_up,
  suspend_exit, update_notify, timer_length,
}

-- Where the scheduler's thread stands: outside `suspend_until`, inside `uv_run`, after it, or before
-- `suspend_exit`.
pub data Pc : Type 0 where
  running polling returned leaving : Pc

-- `timer` is the length of the running timer; `async` says that `uv_async_send` has been called and
-- the loop has not seen it; `sending i` that thread `i` is in `notify` before its `uv_async_send`.
pub record System : Type 0 where
  pub scheduler : Scheduler
  pub pc : Pc
  pub timer : Option ℕ
  pub timer_done : Bool
  pub async : Bool
  pub sending : ℕ → Bool

abbrev pub put : (ℕ → Bool) → ℕ → Bool → ℕ → Bool
put f i b j = if i == j then b else f j

abbrev pub awaken_all : List ℕ → Scheduler → Scheduler
awaken_all [] s = s
awaken_all (f ∷ fs) s = awaken_all fs (awakened f s)

abbrev pub is_set : Option ℕ → Bool
is_set none = false
is_set (some _) = true

-- `suspend_until` up to the event loop, or to `suspend_exit` if a notification has come before.
unfoldable pub enter : ℕ → ℕ → System → System
enter now abs_time s =
    let (wake_up_directly, scheduler) = suspend_enter s.scheduler in
    if wake_up_directly
    then record s { scheduler = scheduler; pc = leaving; timer = none; timer_done = false }
    else record s {
      scheduler = scheduler;
      pc = polling;
      timer = timer_length now abs_time;
      timer_done = false;
    }

-- The test after `uv_run`; a timer that still runs is stopped on the way out.
unfoldable pub check : System → System
check s =
    if has_ready_fibers s.scheduler || s.timer_done || should_wake_up s.scheduler
    then record s { pc = leaving; timer = none }
    else record s { pc = polling }

unfoldable pub leave : System → System
leave s = record s { scheduler = suspend_exit s.scheduler; pc = running }

-- `notify` up to its `uv_async_send`.
unfoldable pub notify : ℕ → System → System
notify i s =
    let (suspended, scheduler) = update_notify s.scheduler in
    record s { scheduler = scheduler; sending = put s.sending i suspended }

pub data Step (s : System) : System → Type 0 where
  awaken :
      (fiber : ℕ) → s.pc ≡ running → Step s (record s { scheduler = awakened fiber s.scheduler })
  pick : s.pc ≡ running → Step s (record s { scheduler = (pick_next s.scheduler).1 })
  suspend : (now abs_time : ℕ) → s.pc ≡ running → Step s (enter now abs_time s)
  -- `uv_run` returns: handles have called back and awakened fibers, the timer among them if `fired`;
  -- its callback signals the async handle. Of the signals some may be `left` for the next round.
  run :
      (fibers : List ℕ) (fired left : Bool)
      → s.pc ≡ polling
      → (fired ≡ true → is_set s.timer ≡ true)
      → (left ≡ true → (s.async || fired) ≡ true)
      → Step s (record s {
        scheduler = awaken_all fibers s.scheduler;
        pc = returned;
        timer = if fired then none else s.timer;
        timer_done = s.timer_done || fired;
        async = left;
      })
  test : s.pc ≡ returned → Step s (check s)
  exit : s.pc ≡ leaving → Step s (leave s)
  notifies : (i : ℕ) → s.sending i ≡ false → Step s (notify i s)
  sends :
      (i : ℕ)
      → s.sending i ≡ true
      → Step s (record s { async = true; sending = put s.sending i false })

pub data Reach : System → Type 0 where
  start : Reach (record {
    scheduler = new;
    pc = running;
    timer = none;
    timer_done = false;
    async = false;
    sending = λ _. false;
  })
  later : {s t : System} → Reach s → Step s t → Reach t
