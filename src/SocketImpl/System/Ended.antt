-- ===== src/SocketImpl/System/Ended.antt =====
-- What is left of a socket when `close` has come to the end.
use fiberio.Base.{ℕ, ◌≡◌, refl, Bool, true, false, arith}
use fiberio.Base.Int.{ℤ}
use fiberio.Errors.{Uv, Result, check_uv_status}
use fiberio.SocketImpl.{
  SocketImpl, Caller, user, reader, Pc, idle, read_wait, shutdown_wait, close_wait, write_wait,
  result, close_returns, after_shutdown, close, shutdown_done, read_finish, read_loop, read,
  read_done, write, write_done,
}
use fiberio.SocketImpl.System.{
  System, wake, put, Step, call_read, resume_read, call_close, end_shutdown, end_close, call_write,
  end_write, return, on_read, Reach,
}
use fiberio.SocketImpl.System.Awake.{asleep, asleep-wake}
use fiberio.SocketImpl.System.Invariant.{Reach-OneReader}

abbrev pub is_result : Pc → Bool
is_result (result o) = true
is_result _ = false

-- The socket is closed, and nobody sleeps in `read`.
pub record Ended (s : System) : Type 0 where
  pub closed : s.socket.closed ≡ true
  pub awake : (i : ℕ) → asleep (s.pc i) ≡ false

-- Any steps, from a state on.
pub data Steps (uv : Uv) (s : System) : System → Type 0 where
  here : Steps uv s s
  next : {t u : System} → Steps uv s t → Step uv t u → Steps uv s u

put-Ended :
    (s : System) (i : ℕ) (r : SocketImpl × Pc)
    → ((j : ℕ) → asleep (s.pc j) ≡ false)
    → r.0.closed ≡ true
    → asleep r.1 ≡ false
    → Ended (put s i r)
put-Ended s i (socket, p) h c a = record { closed = c; awake = λ j. ground (arith, h j) }

close_returns-closed :
    (c : Caller) (s : SocketImpl)
    → s.closed ≡ true
    → ((close_returns c s).0.closed ≡ true) × (is_result (close_returns c s).1 ≡ true)
close_returns-closed user s h = (h, refl)
close_returns-closed reader s h = (h, refl)

after_shutdown-closed :
    (c : Caller) (r : Result (Unit {0})) (s : SocketImpl)
    → s.closed ≡ true
    → ((after_shutdown c r s).0.closed ≡ true) × (asleep (after_shutdown c r s).1 ≡ false)
after_shutdown-closed user r s h = ground arith
after_shutdown-closed reader r s h = ground arith

is_result-asleep : (p : Pc) → is_result p ≡ true → asleep p ≡ false
is_result-asleep (result o) h = refl
is_result-asleep idle h = absurd (cc)
is_result-asleep (read_wait b n) h = absurd (cc)
is_result-asleep (shutdown_wait c) h = absurd (cc)
is_result-asleep (close_wait c) h = absurd (cc)
is_result-asleep write_wait h = absurd (cc)

module _ (uv : Uv) where
  -- On a closed socket the loop of a reader ends, and `read` with it.
  pub read_loop-closed :
      (status : ℤ) (size : ℕ) (s : SocketImpl)
      → s.closed ≡ true
      → ((read_loop uv status size s).0.closed ≡ true)
        × (is_result (read_loop uv status size s).1 ≡ true)
  unfolding read_loop read_finish close
  read_loop-closed status size s h = ground arith

  pub read-closed :
      (buf size : ℕ) (begin status : ℤ) (s : SocketImpl)
      → s.closed ≡ true
      → ((read uv buf size begin status s).0.closed ≡ true)
        × (is_result (read uv buf size begin status s).1 ≡ true)
  unfolding read
  read-closed buf size begin status s h = ground arith

  pub close-closed :
      (status : ℤ) (s : SocketImpl)
      → s.closed ≡ true
      → ((close uv user status s).0.closed ≡ true) × (is_result (close uv user status s).1 ≡ true)
  unfolding close
  close-closed status s h = ground arith

  write-asleep :
      (status : ℤ) (s : SocketImpl)
      → (asleep (write uv status s) ≡ false) × (asleep (write_done uv status) ≡ false)
  unfolding write write_done
  write-asleep status s = ground arith

put_result-Ended :
    (s : System) (i : ℕ) (r : SocketImpl × Pc)
    → Ended s
    → (r.0.closed ≡ true) × (is_result r.1 ≡ true)
    → Ended (put s i r)
put_result-Ended s i r v h = put-Ended s i r v.awake h.0 (is_result-asleep r.1 h.1)

Step-Ended : {uv : Uv} {s t : System} → Step uv s t → Ended s → Ended t
unfolding shutdown_done read_done
Step-Ended {uv} {s} (call_read i buf size begin status e) v =
    put_result-Ended s i _ v (read-closed uv buf size begin status s.socket v.closed)
Step-Ended {uv} {s} (resume_read i size status e) v =
    put_result-Ended s i _ v (read_loop-closed uv status size s.socket v.closed)
Step-Ended {uv} {s} (call_close i status e) v =
    put_result-Ended s i _ v (close-closed uv status s.socket v.closed)
Step-Ended {uv} {s} (end_shutdown i c status e) v =
    let k = after_shutdown-closed c (check_uv_status uv status) s.socket v.closed in
    put-Ended s i _ v.awake k.0 k.1
Step-Ended {uv} {s} (end_close i c e) v =
    put_result-Ended (record s { pc = λ j. wake (s.pc j) }) i _
      (record { closed = v.closed; awake = λ j. asleep-wake (s.pc j) })
      (close_returns-closed c s.socket v.closed)
Step-Ended {uv} {s} (call_write i status e) v =
    put-Ended s i _ v.awake v.closed (write-asleep uv status s.socket).0
Step-Ended {uv} {s} (end_write i status e) v =
    put-Ended s i _ v.awake v.closed (write-asleep uv status s.socket).1
Step-Ended {uv} {s} (return i o e) v = put-Ended s i _ v.awake v.closed refl
Step-Ended {uv} {s} (on_read nread e h) v = record {
  closed = v.closed;
  awake = λ j. asleep-wake (s.pc j);
}

Steps-Ended : {uv : Uv} {s t : System} → Steps uv s t → Ended s → Ended t
Steps-Ended here v = v
Steps-Ended (next r st) v = Step-Ended st (Steps-Ended r v)

-- Once the handle has been closed in a `close` that a reachable state is in, then in every state
-- that follows by any steps the socket is closed, no fiber sleeps in `read`, and each fiber that is
-- still in the loop of `read` comes to its end with its next step, with a count or an exception.
pub end_close-Ended :
    {uv : Uv} {s t : System} (i : ℕ) (c : Caller)
    → Reach uv s
    → s.pc i ≡ close_wait c
    → Steps uv (put (record s { pc = λ j. wake (s.pc j) }) i (close_returns c s.socket)) t
    → Ended t × ((size : ℕ) (status : ℤ) → is_result (read_loop uv status size t.socket).1 ≡ true)
end_close-Ended {uv} {s} {t} i c r e st =
    (v, λ size status. (read_loop-closed uv status size t.socket v.closed).1)
  where
    shut : s.socket.closed ≡ true
    shut = (Reach-OneReader r).closing i (rw e)

    v : Ended t
    v = Steps-Ended st (
        put-Ended (record s { pc = λ j. wake (s.pc j) }) i (close_returns c s.socket)
          (λ j. asleep-wake (s.pc j)) (close_returns-closed c s.socket shut).0
          (is_result-asleep _ (close_returns-closed c s.socket shut).1))
