-- ===== src/Scheduler/Suspend/Progress.antt =====
-- The steps that `suspend_until` takes after a notification.
use fiberio.Base.{ℕ, ◌+◌, ◌≤◌, ◌≡◌, ◌≢◌, ◌⊎◌, true, arith, inl, inr}
use fiberio.Scheduler.{suspend_exit, update_notify, should_wake_up}
use fiberio.Scheduler.Suspend.{
  Pc, running, polling, returned, leaving, System, check, leave, notify, Step, awaken, pick,
  suspend, run, test, exit, notifies, sends, Reach, later,
}
use fiberio.Scheduler.Suspend.Wakeup.{awaken_all-flags, Signalled, Reach-Notified}

-- The steps of the scheduler's own thread.
abbrev pub own : {s t : System} → Step s t → ℕ
own (notifies i e) = 0
own (sends i e) = 0
own _ = 1

-- How many of its steps are left before `suspend_until` returns, if it has been notified.
abbrev pub rank : Pc → ℕ
rank polling = 3
rank returned = 2
rank leaving = 1
rank running = 0

-- `n` steps of that thread, among those of others, that begin inside `suspend_until`.
pub data Inside (s : System) : ℕ → System → Type 0 where
  here : Inside s 0 s
  next :
      {n : ℕ} {t u : System} (m : ℕ)
      → Inside s n t
      → t.pc ≢ running
      → (st : Step t u) → m ≡ n + own st
      → Inside s m u

-- Notified, or out.
abbrev Woken : System → Type 0
Woken s = (s.scheduler.wake_up ≡ true) ⊎ (s.pc ≡ running)

Step-rank :
    {s t : System} (st : Step s t)
    → s.scheduler.wake_up ≡ true
    → s.pc ≢ running
    → Woken t × (own st + rank t.pc ≤ rank s.pc)
unfolding check leave notify suspend_exit update_notify should_wake_up
Step-rank (awaken f e) w n = absurd (n e)
Step-rank (pick e) w n = absurd (n e)
Step-rank (suspend now abs_time e) w n = absurd (n e)
Step-rank {s} (run fs fired left e a b) w n =
    (inl (rw (awaken_all-flags fs s.scheduler).0 w), rw e (omega arith))
Step-rank (test e) w n = ground arith
Step-rank (exit e) w n = ground arith
Step-rank (notifies i e) w n = ground arith
Step-rank (sends i e) w n = ground arith

Inside-rank :
    {s t : System} {n : ℕ}
    → Inside s n t
    → s.scheduler.wake_up ≡ true
    → Woken t × (n + rank t.pc ≤ rank s.pc)
Inside-rank here w = (inl w, omega arith)
Inside-rank (next m r n st e) w = elim (Inside-rank r w).0 [
  | inl k ↦ ((Step-rank st k n).0, omega (arith, (Inside-rank r w).1, (Step-rank st k n).1))
  | inr out ↦ absurd (n out)
]

rank_bound : (p : Pc) → rank p ≤ 3
rank_bound p = ground arith

Inside-Reach : {s t : System} {n : ℕ} → Reach s → Inside s n t → Reach t
Inside-Reach r here = r
Inside-Reach r (next m i n st e) = later (Inside-Reach r i) st

-- Once it is notified in a reachable state, `suspend_until` is left after at most three more steps
-- of the scheduler's thread, whatever other threads do, and exactly the third leaves it if that
-- many are taken; while the event loop runs it has been signalled, or the notifying thread is about
-- to signal it.
pub Inside-leaves :
    {s t : System} {n : ℕ}
    → Reach s
    → Inside s n t
    → s.scheduler.wake_up ≡ true
    → (n ≤ 3) × (n ≡ 3 → t.pc ≡ running) × (t.pc ≡ polling → Signalled t)
Inside-leaves {s} {t} {n} r i w = (
  omega (arith, (Inside-rank i w).1, rank_bound s.pc),
  λ e. ground (arith, (Inside-rank i w).1, rank_bound s.pc),
  signalled,
)
  where
    signalled : t.pc ≡ polling → Signalled t
    signalled p = elim (Inside-rank i w).0 [
      | inl k ↦ (Reach-Notified (Inside-Reach r i)).heard p k
      | inr out ↦ absurd (cc (out, p))
    ]
