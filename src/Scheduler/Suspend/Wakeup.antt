-- ===== src/Scheduler/Suspend/Wakeup.antt =====
-- Notifications while the scheduler is in the event loop.
use fiberio.Base.{ℕ, ◌≡◌, refl, Bool, true, false, not, List, [], ◌∷◌, arith, inl, inr, ◌⊎◌}
use fiberio.Scheduler.{
  Scheduler, awakened, pick_next, suspend_enter, should_wake_up, suspend_exit, update_notify,
}
use fiberio.Scheduler.Suspend.{
  Pc, running, polling, returned, System, awaken_all, enter, check, leave, notify, Step, awaken,
  pick, suspend, run, test, exit, notifies, sends, Reach, start, later,
}

-- Somebody has woken the event loop or is about to.
abbrev pub Signalled : System → Type 0
Signalled s = (s.async ≡ true) ⊎ ((i : ℕ) × (s.sending i ≡ true))

abbrev pub is_running : Pc → Bool
is_running running = true
is_running _ = false

pub record Notified (s : System) : Type 0 where
  -- `suspended_` holds exactly inside `suspend_until`.
  pub marked : s.scheduler.suspended ≡ not (is_running s.pc)
  pub heard : s.pc ≡ polling → s.scheduler.wake_up ≡ true → Signalled s

pub awaken_all-flags :
    (fs : List ℕ) (s : Scheduler)
    → ((awaken_all fs s).wake_up ≡ s.wake_up) × ((awaken_all fs s).suspended ≡ s.suspended)
unfolding awakened
awaken_all-flags [] s = (refl, refl)
awaken_all-flags (f ∷ fs) s = awaken_all-flags fs (awakened f s)

pick_next-flags :
    (s : Scheduler)
    → ((pick_next s).1.wake_up ≡ s.wake_up) × ((pick_next s).1.suspended ≡ s.suspended)
unfolding pick_next
pick_next-flags s = ground arith

enter-Notified : (now abs_time : ℕ) (s : System) → Notified (enter now abs_time s)
unfolding enter suspend_enter
enter-Notified now abs_time s = ground arith

check-Notified : (s : System) → s.pc ≡ returned → Notified s → Notified (check s)
unfolding check should_wake_up
check-Notified s e v = ground arith

leave-Notified : (s : System) → Notified (leave s)
unfolding leave suspend_exit
leave-Notified s = ground arith

notify-Notified : (i : ℕ) (s : System) → Notified s → Notified (notify i s)
unfolding notify update_notify
notify-Notified i s v = record { marked = v.marked; heard = λ p h. inr (i, ground arith) }

Step-Notified : {s t : System} → Step s t → Notified s → Notified t
unfolding awakened
Step-Notified {s} (awaken f e) v = record { marked = v.marked; heard = λ p h. absurd (cc (e, p)) }
Step-Notified {s} (pick e) v = record {
  marked = rw (pick_next-flags s.scheduler).1 v.marked;
  heard = λ p h. absurd (cc (e, p));
}
Step-Notified {s} (suspend now abs_time e) v = enter-Notified now abs_time s
Step-Notified {s} (run fs fired left e a b) v = record {
  marked = rw (awaken_all-flags fs s.scheduler).1 (rw e at v.marked);
  heard = λ p h. absurd (cc p);
}
Step-Notified {s} (test e) v = check-Notified s e v
Step-Notified {s} (exit e) v = leave-Notified s
Step-Notified {s} (notifies i e) v = notify-Notified i s v
Step-Notified {s} (sends i e) v = record { marked = v.marked; heard = λ p h. inl refl }

-- In every reachable state `suspended_` holds exactly inside `suspend_until`, and if a notification
-- has come while the event loop runs, the loop has been signalled or the notifying thread is about
-- to signal it.
pub Reach-Notified : {s : System} → Reach s → Notified s
Reach-Notified start = record { marked = refl; heard = λ p h. absurd (cc p) }
Reach-Notified (later r st) = Step-Notified st (Reach-Notified r)
