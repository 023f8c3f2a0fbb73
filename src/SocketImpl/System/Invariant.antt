-- ===== src/SocketImpl/System/Invariant.antt =====
-- `reading_` of src/socket_impl.cpp and the fibers that wait in `read`.
use fiberio.Base.{ℕ, ◌≡◌, refl, true, false, arith, Bool-cases, inl, inr}
use fiberio.Base.Int.{ℤ}
use fiberio.Errors.{Uv}
use fiberio.SocketImpl.{
  SocketImpl, user, Pc, idle, read_wait, read_finish, read_done, write, write_done,
}
use fiberio.SocketImpl.System.{
  System, update, wake, put, Step, call_read, resume_read, call_close, end_shutdown, end_close,
  call_write, end_write, return, on_read, Reach, start, later,
}
use fiberio.SocketImpl.System.Facts.{
  waits, in_close, reader_closes, Facts, close-Facts, read_finish-waits, read_loop-cases,
  read_finish-reading, read_finish-closed, read-Facts, waits-wake, in_close-wake,
  reader_closes-wake, same_caller, close_returns-Facts, quiet-Facts, shutdown_done-Facts,
  write-quiet, write_done-quiet,
}

pub record OneReader (s : System) : Type 0 where
  pub busy : (i : ℕ) → waits (s.pc i) ≡ true → s.socket.reading ≡ true
  pub alone : (i j : ℕ) → waits (s.pc i) ≡ true → waits (s.pc j) ≡ true → i ≡ j
  pub held : s.socket.reading ≡ true → (i : ℕ) × (waits (s.pc i) ≡ true)
  pub closing : (i : ℕ) → in_close (s.pc i) ≡ true → s.socket.closed ≡ true
  pub ended : (i : ℕ) → reader_closes (s.pc i) ≡ true → s.socket.reading ≡ false

-- A fiber that neither waits in `read` nor closes for it takes a step.
put-OneReader :
    (s : System) (i : ℕ) (r : SocketImpl × Pc)
    → OneReader s
    → waits (s.pc i) ≡ false
    → Facts s.socket r
    → OneReader (put s i r)
put-OneReader s i (socket, p) v w f = record {
  busy = λ j q. ground (arith, v.busy j);
  alone = λ j k a b. ground (arith, v.busy j, v.busy k, v.alone j k);
  held = held;
  closing = λ j q. ground (arith, v.closing j);
  ended = λ j q. ground (arith, v.ended j, v.closing j);
}
  where
    held : socket.reading ≡ true → (j : ℕ) × (waits (update s.pc i p j) ≡ true)
    held e = elim (Bool-cases (waits p)) [
      | inl y ↦ (i, ground arith)
      | inr n ↦ let (j, h) = v.held (ground arith) in (j, ground arith)
    ]

pub wake-OneReader : (s : System) → OneReader s → OneReader (record s { pc = λ j. wake (s.pc j) })
wake-OneReader s v = record {
  busy = λ i h. v.busy i (rw waits-wake at h);
  alone = λ i j h k. v.alone i j (rw waits-wake at h) (rw waits-wake at k);
  held = λ e. let (i, h) = v.held e in (i, rw waits-wake h);
  closing = λ i h. v.closing i (rw in_close-wake at h);
  ended = λ i h. v.ended i (rw reader_closes-wake at h);
}

-- The reader takes a step and goes on waiting, or ends.
stay-OneReader :
    (s : System) (i size : ℕ)
    → OneReader s
    → waits (s.pc i) ≡ true
    → OneReader (put s i (s.socket, read_wait true size))
stay-OneReader s i size v w = record {
  busy = λ j q. v.busy i w;
  alone = λ j k a b. ground (arith, v.alone j k, v.alone i k, v.alone j i);
  held = λ e. (i, ground arith);
  closing = λ j q. ground (arith, v.closing j);
  ended = λ j q. ground (arith, v.ended j);
}

end-OneReader :
    (s : System) (i : ℕ) (r : SocketImpl × Pc)
    → OneReader s
    → waits (s.pc i) ≡ true
    → waits r.1 ≡ false
    → r.0.reading ≡ false
    → (s.socket.closed ≡ true → r.0.closed ≡ true)
    → (in_close r.1 ≡ true → r.0.closed ≡ true)
    → OneReader (put s i r)
end-OneReader s i (socket, p) v w n e m c = record {
  busy = λ j q. ground (arith, v.alone i j);
  alone = λ j k a b. ground (arith, v.alone j k);
  held = λ h. cc;
  closing = λ j q. ground (arith, v.closing j);
  ended = λ j q. e;
}

read_done-OneReader :
    (uv : Uv) (nread : ℤ) (s : System)
    → OneReader s
    → OneReader (record { socket = read_done uv nread s.socket; pc = λ j. wake (s.pc j) })
unfolding read_done
read_done-OneReader uv nread s v = record {
  busy = w.busy;
  alone = w.alone;
  held = w.held;
  closing = w.closing;
  ended = w.ended;
}
  where
    w : OneReader (record s { pc = λ j. wake (s.pc j) })
    w = wake-OneReader s v

-- Every step of every fiber and every callback keeps the invariant.
pub Step-OneReader : {uv : Uv} {s t : System} → Step uv s t → OneReader s → OneReader t
Step-OneReader {uv} {s} (call_read i buf size begin status e) v =
    put-OneReader s i _ v (rw e) (read-Facts uv buf size begin status s.socket)
Step-OneReader {uv} {s} (resume_read i size status e) v =
    elim (read_loop-cases uv status size s.socket) [
      | inl (k, _, _) ↦ rw k (stay-OneReader s i size v (rw e))
      | inr k ↦ rw k (
          end-OneReader s i (read_finish uv status s.socket) v (rw e)
            (read_finish-waits uv status s.socket) (read_finish-reading uv status s.socket)
            (read_finish-closed uv status s.socket).0 (read_finish-closed uv status s.socket).1)
    ]
Step-OneReader {uv} {s} (call_close i status e) v =
    put-OneReader s i _ v (rw e) (close-Facts uv user status s.socket (λ h. absurd (cc)))
Step-OneReader {uv} {s} (end_shutdown i c status e) v = put-OneReader s i _ v (rw e) (
    shutdown_done-Facts uv c status s.socket (v.closing i (rw e))
      (λ h. v.ended i (rw e (same_caller c h))))
Step-OneReader {uv} {s} (end_close i c e) v =
    put-OneReader _ i _ (wake-OneReader s v) (rw (waits-wake, e) refl)
      (close_returns-Facts c s.socket)
Step-OneReader {uv} {s} (call_write i status e) v =
    put-OneReader s i _ v (rw e)
      (quiet-Facts s.socket (write uv status s.socket) (write-quiet uv status s.socket))
Step-OneReader {uv} {s} (end_write i status e) v =
    put-OneReader s i _ v (rw e)
      (quiet-Facts s.socket (write_done uv status) (write_done-quiet uv status))
Step-OneReader {uv} {s} (return i o e) v =
    put-OneReader s i _ v (rw e) (quiet-Facts s.socket idle (refl, refl))
Step-OneReader {uv} {s} (on_read nread e h) v = read_done-OneReader uv nread s v

-- In every reachable state `reading_` holds exactly if a fiber waits in `read`, no two fibers do,
-- and a fiber in the shutdown of `close` has marked the socket closed.
pub Reach-OneReader : {uv : Uv} {s : System} → Reach uv s → OneReader s
Reach-OneReader start = record {
  busy = λ i h. cc;
  alone = λ i j h k. cc;
  held = λ e. cc;
  closing = λ i h. cc;
  ended = λ i h. cc;
}
Reach-OneReader (later r st) = Step-OneReader st (Reach-OneReader r)
