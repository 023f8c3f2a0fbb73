-- ===== src/SocketImpl/System/Wakeup.antt =====
-- What `close` does to a fiber that waits in `read`.
use fiberio.Base.{ℕ, ◌≡◌, ◌≢◌, refl, Bool, true, false, ◌==◌, arith, Bool-cases, inl, inr, ap, ◌∙◌}
use fiberio.Base.Int.{ℤ}
use fiberio.Errors.{Error, socket_closed_error, Uv, ok, err, check_uv_status}
use fiberio.SocketImpl.{
  SocketImpl, Outcome, finished, read_bytes, threw, Caller, user, reader, Pc, idle, read_wait,
  shutdown_wait, close_wait, write_wait, result, close_returns, after_shutdown, close,
  shutdown_done, read_finish, read_loop, read, write, write_done,
}
use fiberio.SocketImpl.System.{
  System, put, Step, call_read, resume_read, call_close, end_shutdown, end_close, call_write,
  end_write, return, on_read,
}
use fiberio.SocketImpl.System.Awake.{asleep}
use fiberio.SocketImpl.System.Ended.{is_result, read_loop-closed, read-closed, close-closed}

module _ (uv : Uv) where
  -- On a closed socket each operation ends at once and changes nothing: `read` and `write` throw
  -- `socket_closed_error`, and `close` returns.
  closed_socket :
      (s : SocketImpl) (buf size : ℕ) (begin status : ℤ)
      → s.closed ≡ true
      → (read uv buf size begin status s ≡ (s, result (threw socket_closed_error)))
        × (write uv status s ≡ result (threw socket_closed_error))
        × (close uv user status s ≡ (s, result finished))
  unfolding read write close
  closed_socket s buf size begin status h = ground arith

  -- `read` after the end of the stream, on an open socket whose shutdown succeeds: it closes the
  -- socket, and once the shutdown and the closing of the handle have called back it returns 0.
  end_of_stream :
      (size : ℕ) (s : SocketImpl)
      → s.closed ≡ false
      → s.buf ≡ 0
      → s.len ≡ fiberio.SocketImpl.error_eof
      → (status last : ℤ) → check_uv_status uv status ≡ ok tt
      → check_uv_status uv last ≡ ok tt
      → let (s1, p1) = read_loop uv status size s in
        let (s2, p2) = shutdown_done uv reader last s1 in
        let (s3, p3) = close_returns reader s2 in
        (p1 ≡ shutdown_wait reader)
        × (s1.closed ≡ true)
        × (s1.reading ≡ false)
        × (p2 ≡ close_wait reader)
        × (p3 ≡ result (read_bytes 0))
        × (s3.closed ≡ true)
  unfolding read_loop read_finish close shutdown_done
  end_of_stream size s a b e status last p q = ground arith

-- Inside the shutdown of `close`, or inside its `close_handle`.
abbrev pub in_close : Pc → Bool
in_close (shutdown_wait c) = true
in_close (close_wait c) = true
in_close _ = false

-- libuv reports what it has read, or that it could not.
abbrev pub reports : {uv : Uv} {s t : System} → Step uv s t → Bool
reports (on_read nread e h) = true
reports _ = false

-- Any steps but those reports, from a state on.
pub data Unreported (uv : Uv) (s : System) : System → Type 0 where
  here : Unreported uv s s
  next :
      {t u : System}
      → Unreported uv s t
      → (st : Step uv t u) → reports st ≡ false
      → Unreported uv s u

-- Fiber `i` sleeps in `read` on a closed socket that nobody closes.
pub record Stuck (i n : ℕ) (s : System) : Type 0 where
  pub closed : s.socket.closed ≡ true
  pub sleeps : s.pc i ≡ read_wait true n
  pub nobody : (k : ℕ) → in_close (s.pc k) ≡ false

is_result-in_close : (p : Pc) → is_result p ≡ true → in_close p ≡ false
is_result-in_close (result o) h = refl
is_result-in_close idle h = absurd (cc)
is_result-in_close (read_wait b n) h = absurd (cc)
is_result-in_close (shutdown_wait c) h = absurd (cc)
is_result-in_close (close_wait c) h = absurd (cc)
is_result-in_close write_wait h = absurd (cc)

put-Stuck :
    (i n : ℕ) (s : System) (k : ℕ) (r : SocketImpl × Pc)
    → Stuck i n s
    → asleep (s.pc k) ≡ false
    → r.0.closed ≡ true
    → in_close r.1 ≡ false
    → Stuck i n (put s k r)
put-Stuck i n s k (socket, p) v a c o = record {
  closed = c;
  sleeps = elim (Bool-cases (k == i)) [
    | inl e ↦
        let same : k ≡ i = ground arith in
        absurd (cc (a, ap (λ (m : ℕ). asleep (s.pc m)) same ∙ ap asleep v.sleeps))
    | inr e ↦ rw e v.sleeps
  ];
  nobody = λ m. ground (arith, v.nobody m);
}

put_result-Stuck :
    (i n : ℕ) (s : System) (k : ℕ) (r : SocketImpl × Pc)
    → Stuck i n s
    → asleep (s.pc k) ≡ false
    → (r.0.closed ≡ true) × (is_result r.1 ≡ true)
    → Stuck i n (put s k r)
put_result-Stuck i n s k r v a h = put-Stuck i n s k r v a h.0 (is_result-in_close r.1 h.1)

write-in_close :
    (uv : Uv) (status : ℤ) (s : SocketImpl)
    → (in_close (write uv status s) ≡ false) × (in_close (write_done uv status) ≡ false)
unfolding write write_done
write-in_close uv status s = ground arith

Step-Stuck :
    {uv : Uv} {s t : System} (i n : ℕ) (st : Step uv s t)
    → reports st ≡ false
    → Stuck i n s
    → Stuck i n t
Step-Stuck {uv} {s} i n (call_read k buf size begin status e) h v =
    put_result-Stuck i n s k _ v (rw e) (read-closed uv buf size begin status s.socket v.closed)
Step-Stuck {uv} {s} i n (resume_read k size status e) h v =
    put_result-Stuck i n s k _ v (rw e) (read_loop-closed uv status size s.socket v.closed)
Step-Stuck {uv} {s} i n (call_close k status e) h v =
    put_result-Stuck i n s k _ v (rw e) (close-closed uv status s.socket v.closed)
Step-Stuck {uv} {s} i n (end_shutdown k c status e) h v = absurd (cc (v.nobody k, ap in_close e))
Step-Stuck {uv} {s} i n (end_close k c e) h v = absurd (cc (v.nobody k, ap in_close e))
Step-Stuck {uv} {s} i n (call_write k status e) h v =
    put-Stuck i n s k _ v (rw e) v.closed (write-in_close uv status s.socket).0
Step-Stuck {uv} {s} i n (end_write k status e) h v =
    put-Stuck i n s k _ v (rw e) v.closed (write-in_close uv status s.socket).1
Step-Stuck {uv} {s} i n (return k o e) h v = put-Stuck i n s k _ v (rw e) v.closed refl
Step-Stuck i n (on_read nread e k) h v = absurd (cc h)

Unreported-Stuck :
    {uv : Uv} {s t : System} (i n : ℕ) → Unreported uv s t → Stuck i n s → Stuck i n t
Unreported-Stuck i n here v = v
Unreported-Stuck i n (next r st h) v = Step-Stuck i n st h (Unreported-Stuck i n r v)

-- A shutdown that has failed leaves everything else as it was.
failed_close :
    (uv : Uv) (s : System) (i j n : ℕ) (e : Error) (status : ℤ)
    → s.pc i ≡ read_wait true n
    → s.pc j ≡ shutdown_wait user
    → s.socket.closed ≡ true
    → ((k : ℕ) → in_close (s.pc k) ≡ (k == j))
    → check_uv_status uv status ≡ err e
    → e ≢ socket_closed_error
    → Stuck i n (put s j (shutdown_done uv user status s.socket))
unfolding shutdown_done
failed_close uv s i j n e status a b c o h k = record {
  closed = ground arith;
  sleeps = ground arith;
  nobody = λ m. ground (arith, o m);
}

-- Where the shutdown of the only `close` that is under way ends with any error but
-- `socket_closed_error`, a fiber that sleeps in `read` is never woken by anything that the fibers
-- do: in every state that follows by any steps, further calls of `close` included, but for a report
-- of the read by libuv, it sleeps as before, on a socket that is closed.
pub failed_close-Stuck :
    {uv : Uv} {t : System} (s : System) (i j n : ℕ) (e : Error) (status : ℤ)
    → s.pc i ≡ read_wait true n
    → s.pc j ≡ shutdown_wait user
    → s.socket.closed ≡ true
    → ((k : ℕ) → in_close (s.pc k) ≡ (k == j))
    → check_uv_status uv status ≡ err e
    → e ≢ socket_closed_error
    → Unreported uv (put s j (shutdown_done uv user status s.socket)) t
    → (t.pc i ≡ read_wait true n) × (t.socket.closed ≡ true)
failed_close-Stuck {uv} s i j n e status a b c o h k r =
    let v = Unreported-Stuck i n r (failed_close uv s i j n e status a b c o h k) in
    (v.sleeps, v.closed)
