-- ===== src/ServerSocketImpl/System/Drained.antt =====
-- What is left of a listening socket of src/server_socket_impl.cpp when `close` has come to the end.
use fiberio.Base.{ℕ, ◌≡◌, refl, Bool, true, false, arith, codes}
use fiberio.Base.Int.{ℤ}
use fiberio.Errors.{Uv, runtime_error}
use fiberio.ServerSocketImpl.{
  ServerSocketImpl, Pc, idle, accept_wait, close_wait, threw, closed_down, result, on_connection,
  close, accept,
}
use fiberio.ServerSocketImpl.System.{
  System, wake, put_accept, put, Step, call_accept, resume_accept, call_close, end_close, return,
  arrives, Reach, start, later,
}
use fiberio.ServerSocketImpl.System.Accepting.{do_accept-result}

abbrev pub asleep : Pc → Bool
asleep (accept_wait b) = b
asleep _ = false

abbrev pub closing : Pc → Bool
closing close_wait = true
closing _ = false

asleep-wake : (p : Pc) → asleep (wake p) ≡ false
asleep-wake idle = refl
asleep-wake (accept_wait b) = refl
asleep-wake close_wait = refl
asleep-wake (result o) = refl

closing-wake : (p : Pc) → closing (wake p) ≡ closing p
closing-wake (accept_wait b) = refl
closing-wake p = refl

-- Any steps, from a state on.
pub data Steps (uv : Uv) (s : System) : System → Type 0 where
  here : Steps uv s s
  next : {t u : System} → Steps uv s t → Step uv t u → Steps uv s u

-- A fiber in `close` has marked the socket closed.
abbrev Marked : System → Type 0
Marked s = (i : ℕ) → closing (s.pc i) ≡ true → s.socket.closed ≡ true

-- The socket is closed, nobody sleeps in `accept`, and `taken` connections have been taken.
pub record Drained (taken : ℕ) (s : System) : Type 0 where
  pub closed : s.socket.closed ≡ true
  pub awake : (i : ℕ) → asleep (s.pc i) ≡ false
  pub same : s.taken ≡ taken

-- `accept` on a closed socket throws.
abbrev pub refused : ServerSocketImpl → ServerSocketImpl × Pc
refused s = (s, result (threw (runtime_error (codes "connection closed"))))

module _ (uv : Uv) where
  accept-quiet :
      (status : ℤ) (s : ServerSocketImpl)
      → (closing (accept uv status s).1 ≡ false) × ((accept uv status s).0.closed ≡ s.closed)
  unfolding accept
  accept-quiet status s = ground (arith, (do_accept-result uv status).1)

  accept-refused :
      (status : ℤ) (s : ServerSocketImpl) → s.closed ≡ true → accept uv status s ≡ refused s
  unfolding accept
  accept-refused status s h = ground arith

put_accept-Marked :
    (uv : Uv) (s : System) (i : ℕ) (status : ℤ)
    → Marked s
    → Marked (put_accept s i (accept uv status s.socket))
put_accept-Marked uv s i status m j h = ground (arith, accept-quiet uv status s.socket, m j)

close-Marked : (s : System) (i : ℕ) → Marked s → Marked (put s i (close s.socket))
unfolding close
close-Marked s i m j h = ground (arith, m j)

Step-Marked : {uv : Uv} {s t : System} → Step uv s t → Marked s → Marked t
unfolding on_connection
Step-Marked {uv} {s} (call_accept i status e) m = put_accept-Marked uv s i status m
Step-Marked {uv} {s} (resume_accept i status e) m = put_accept-Marked uv s i status m
Step-Marked {uv} {s} (call_close i e) m = close-Marked s i m
Step-Marked {uv} {s} (end_close i e) m = λ j h. ground (arith, m j, closing-wake (s.pc j))
Step-Marked {uv} {s} (return i o e) m = λ j h. ground (arith, m j)
Step-Marked {uv} {s} (arrives status) m = λ j h. m j (rw closing-wake at h)

Reach-Marked : {uv : Uv} {s : System} → Reach uv s → Marked s
Reach-Marked start = λ i h. absurd (cc)
Reach-Marked (later r st) = Step-Marked st (Reach-Marked r)

put_accept-Drained :
    (uv : Uv) (n : ℕ) (s : System) (i : ℕ) (status : ℤ)
    → Drained n s
    → Drained n (put_accept s i (accept uv status s.socket))
put_accept-Drained uv n s i status v = rw (accept-refused uv status s.socket v.closed) (record {
  closed = v.closed;
  awake = λ j. ground (arith, v.awake j);
  same = ground (arith, v.closed, v.same);
})

close-Drained : (n : ℕ) (s : System) (i : ℕ) → Drained n s → Drained n (put s i (close s.socket))
unfolding close
close-Drained n s i v = record {
  closed = ground (arith, v.closed);
  awake = λ j. ground (arith, v.awake j, v.closed);
  same = ground (arith, v.same);
}

Step-Drained : {uv : Uv} {n : ℕ} {s t : System} → Step uv s t → Drained n s → Drained n t
unfolding on_connection
Step-Drained {uv} {n} {s} (call_accept i status e) v = put_accept-Drained uv n s i status v
Step-Drained {uv} {n} {s} (resume_accept i status e) v = put_accept-Drained uv n s i status v
Step-Drained {uv} {n} {s} (call_close i e) v = close-Drained n s i v
Step-Drained {uv} {n} {s} (end_close i e) v = record {
  closed = v.closed;
  awake = λ j. ground (arith, asleep-wake (s.pc j));
  same = v.same;
}
Step-Drained {uv} {n} {s} (return i o e) v = record {
  closed = v.closed;
  awake = λ j. ground (arith, v.awake j);
  same = v.same;
}
Step-Drained {uv} {n} {s} (arrives status) v = record {
  closed = v.closed;
  awake = λ j. asleep-wake (s.pc j);
  same = v.same;
}

Steps-Drained : {uv : Uv} {n : ℕ} {s t : System} → Steps uv s t → Drained n s → Drained n t
Steps-Drained here v = v
Steps-Drained (next r st) v = Step-Drained st (Steps-Drained r v)

-- Once the handle has been closed in a `close` that a reachable state is in, then in every state
-- that follows by any steps the listening socket is closed, no fiber sleeps in `accept`, no further
-- connection has been taken, and `accept`, entered or woken, throws and leaves the socket as it is,
-- even with connections pending.
pub end_close-Drained :
    {uv : Uv} {s t : System} (i : ℕ)
    → Reach uv s
    → s.pc i ≡ close_wait
    → Steps uv (put (record s { pc = λ j. wake (s.pc j) }) i (s.socket, result closed_down)) t
    → Drained s.taken t × ((status : ℤ) → accept uv status t.socket ≡ refused t.socket)
end_close-Drained {uv} {s} {t} i r e st = (v, λ status. accept-refused uv status t.socket v.closed)
  where
    v : Drained s.taken t
    v = Steps-Drained st (record {
      closed = Reach-Marked r i (rw e);
      awake = λ j. ground (arith, asleep-wake (s.pc j));
      same = refl;
    })
