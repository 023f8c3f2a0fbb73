-- ===== src/Tests/Events.antt =====
-- The scheduler, a server socket and the connecting functions at concrete inputs.
use fiberio.Base.{ℕ, ◌+◌, ◌*◌, ◌≤◌, ◌<◌, ◌≡◌, refl, false, [], ◌∷◌, none, arith}
use fiberio.Base.Int.{ℤ, pos, negsuc}
use fiberio.Scheduler.{
  Scheduler, new, nanoseconds, milliseconds_until, is_max_time, timer_length, has_ready_fibers,
  pick_next, suspend_enter, update_notify,
}
use fiberio.Scheduler.History.{awaken, pick, run_turns, InOrder, run_turns-InOrder}
use fiberio.Scheduler.Deadline.{timer_bounds}
use fiberio.Scheduler.Suspend
use fiberio.Scheduler.Suspend.{
  System, running, enter, notify, start, later, suspend, notifies, run, polling, Reach,
}
use fiberio.Scheduler.Suspend.Wakeup.{Notified, Reach-Notified, Signalled}
use fiberio.ServerSocketImpl
use fiberio.ServerSocketImpl.{
  idle, closed_down, result, SockAddr, inet, BindRun, Net, bind, update_address, accept,
  on_connection,
}
use fiberio.ServerSocketImpl.System.{put, wake, put_accept, call_accept, call_close, arrives}
use fiberio.ServerSocketImpl.System.Drained
use fiberio.ServerSocketImpl.System.Drained.{Drained, refused, end_close-Drained}
use fiberio.ServerSocketImpl.System.Accepting.{Accounted, Reach-Accounted}
use fiberio.Connect.{ConnectRun}
use fiberio.Tests.Network.{linux}
use fiberio.Scheduler.Suspend.Progress.{Inside, here, next, Inside-leaves}

abbrev two_ready : Scheduler
two_ready = record new { queue = 4 ∷ 7 ∷ [] }

run_turns-InOrder_example :
    InOrder
      (pick ∷ awaken 2 ∷ pick ∷ pick ∷ pick ∷ awaken 9 ∷ [])
      (4 ∷ 7 ∷ [])
      (run_turns (pick ∷ awaken 2 ∷ pick ∷ pick ∷ pick ∷ awaken 9 ∷ []) two_ready)
run_turns-InOrder_example =
    run_turns-InOrder (pick ∷ awaken 2 ∷ pick ∷ pick ∷ pick ∷ awaken 9 ∷ []) two_ready

timer_bounds_example :
    (1 ≤ 2) × (1500100 < 100 + 2 * nanoseconds) × (100 + 2 * nanoseconds ≤ 1500100 + nanoseconds)
unfolding timer_length milliseconds_until is_max_time
timer_bounds_example = timer_bounds 100 1500100 2 (omega arith) refl

abbrev asleep : System
asleep = enter 0 5000000 (record {
  scheduler = new;
  pc = running;
  timer = none;
  timer_done = false;
  async = false;
  sending = λ _. false;
})

-- Thread 3 is in `notify` while the event loop runs.
abbrev notified : System
notified = notify 3 asleep

Reach-Notified_example : Notified notified
unfolding enter suspend_enter
Reach-Notified_example =
    Reach-Notified (later (later start (suspend 0 5000000 refl)) (notifies 3 refl))

notified-Reach : Reach notified
unfolding enter suspend_enter
notified-Reach = later (later start (suspend 0 5000000 refl)) (notifies 3 refl)

-- A handle has called back, and fiber 5 is ready.
abbrev called_back : System
called_back = record notified {
  scheduler = fiberio.Scheduler.Suspend.awaken_all (5 ∷ []) notified.scheduler;
  pc = fiberio.Scheduler.Suspend.returned;
}

called_back-Inside : Inside notified 1 called_back
unfolding enter suspend_enter notify update_notify
called_back-Inside =
    next 1 here (λ e. cc e)
      (run (5 ∷ []) false false refl (λ e. absurd (cc e)) (λ e. absurd (cc e))) refl

Inside-leaves_example :
    (1 ≤ 3)
    × (◌≡◌ {A = ℕ} 1 3 → called_back.pc ≡ running)
    × (called_back.pc ≡ polling → Signalled called_back)
unfolding enter suspend_enter notify update_notify
Inside-leaves_example = Inside-leaves notified-Reach called_back-Inside refl

abbrev listening : fiberio.ServerSocketImpl.System.System
listening = record { socket = fiberio.ServerSocketImpl.new; pc = λ _. idle; arrived = 0; taken = 0 }

-- Fiber 2 waits in `accept`.
abbrev accepting : fiberio.ServerSocketImpl.System.System
accepting = put_accept listening 2 (accept linux (pos 0) listening.socket)

Reach-Accounted_example : Accounted accepting
Reach-Accounted_example = Reach-Accounted (
    fiberio.ServerSocketImpl.System.later fiberio.ServerSocketImpl.System.start
      (call_accept 2 (pos 0) refl))

-- Fiber 1 is in `close`.
abbrev stopping : fiberio.ServerSocketImpl.System.System
stopping = put accepting 1 (fiberio.ServerSocketImpl.close accepting.socket)

stopping-Reach : fiberio.ServerSocketImpl.System.Reach linux stopping
unfolding accept
stopping-Reach =
    fiberio.ServerSocketImpl.System.later
      (fiberio.ServerSocketImpl.System.later fiberio.ServerSocketImpl.System.start
        (call_accept 2 (pos 0) refl))
      (call_close 1 refl)

-- The handle is closed, and the fiber in `accept` is awake.
abbrev stopped : fiberio.ServerSocketImpl.System.System
stopped =
    put (record stopping { pc = λ j. wake (stopping.pc j) }) 1 (stopping.socket, result closed_down)

end_close-Drained_example :
    Drained 0 stopped × ((status : ℤ) → accept linux status stopped.socket ≡ refused stopped.socket)
unfolding accept fiberio.ServerSocketImpl.close
end_close-Drained_example =
    end_close-Drained 1 stopping-Reach refl fiberio.ServerSocketImpl.System.Drained.here

-- The name is found, but nobody listens.
abbrev unanswered : ConnectRun
unanswered = record {
  lookup_started = pos 0;
  lookup_done = pos 0;
  connect_started = pos 0;
  connect_done = negsuc 110;
}
