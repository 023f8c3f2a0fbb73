-- ===== src/SocketImpl/System/Awake.antt =====
-- The fibers that sleep in `read`, and what they sleep for.
use fiberio.Base.{ℕ, ◌≡◌, ◌≢◌, refl, Bool, true, false, ◌||◌, ◌==◌, arith, Bool-cases, inl, inr}
use fiberio.Base.Int.{ℤ}
use fiberio.Errors.{Uv, Result, check_uv_status}
use fiberio.SocketImpl.{
  SocketImpl, Caller, user, reader, Pc, idle, read_wait, shutdown_wait, close_wait, write_wait,
  result, to_int64, close_returns, after_shutdown, close, shutdown_done, read_finish, read_loop,
  read, read_done, write, write_done,
}
use fiberio.SocketImpl.System.{
  System, update, wake, put, Step, call_read, resume_read, call_close, end_shutdown, end_close,
  call_write, end_write, return, on_read, Reach, start, later,
}
use fiberio.SocketImpl.System.Facts.{waits, reader_closes, read_loop-cases}
use fiberio.SocketImpl.System.Invariant.{OneReader, Reach-OneReader, wake-OneReader}

abbrev pub asleep : Pc → Bool
asleep (read_wait b _) = b
asleep _ = false

pub record Served (s : System) : Type 0 where
  -- A fiber that sleeps in `read` still has its buffer out.
  pub lent : (i : ℕ) → asleep (s.pc i) ≡ true → s.socket.buf ≢ 0
  -- While a reader's buffer is out, libuv reads into it, or the socket is closed.
  pub active :
      (i : ℕ)
      → waits (s.pc i) ≡ true
      → s.socket.buf ≢ 0
      → (s.socket.active || s.socket.closed) ≡ true

-- What a step of a fiber that does not wait in `read` leaves to the one that does, and its own wait.
record Leaves (s : SocketImpl) (r : SocketImpl × Pc) : Type 0 where
  other :
      s.reading ≡ true
      → (r.0.buf ≡ s.buf) × ((s.active || s.closed) ≡ true → (r.0.active || r.0.closed) ≡ true)
  own : waits r.1 ≡ true → (r.0.buf ≢ 0) × (r.0.active ≡ true)

asleep-waits : (p : Pc) → asleep p ≡ true → waits p ≡ true
asleep-waits (read_wait b n) h = refl
asleep-waits idle h = absurd (cc)
asleep-waits (shutdown_wait c) h = absurd (cc)
asleep-waits (close_wait c) h = absurd (cc)
asleep-waits write_wait h = absurd (cc)
asleep-waits (result o) h = absurd (cc)

pub asleep-wake : (p : Pc) → asleep (wake p) ≡ false
asleep-wake (read_wait b n) = refl
asleep-wake idle = refl
asleep-wake (shutdown_wait c) = refl
asleep-wake (close_wait c) = refl
asleep-wake write_wait = refl
asleep-wake (result o) = refl

waits-wake : (p : Pc) → waits (wake p) ≡ waits p
waits-wake (read_wait b n) = refl
waits-wake p = refl

put-Served :
    (s : System) (i : ℕ) (r : SocketImpl × Pc)
    → OneReader s
    → Served s
    → Leaves s.socket r
    → Served (put s i r)
put-Served s i (socket, p) v z l = record { lent = lent; active = active }
  where
    lent : (j : ℕ) → asleep (update s.pc i p j) ≡ true → socket.buf ≢ 0
    lent j h = elim (Bool-cases (i == j)) [
      | inl y ↦ (l.own (asleep-waits p (ground arith))).0
      | inr n ↦ ground (arith, l.other, v.busy j, asleep-waits (s.pc j), z.lent j)
    ]

    active :
        (j : ℕ)
        → waits (update s.pc i p j) ≡ true
        → socket.buf ≢ 0
        → (socket.active || socket.closed) ≡ true
    active j h b = elim (Bool-cases (i == j)) [
      | inl y ↦ ground (arith, l.own)
      | inr n ↦ ground (arith, l.other, v.busy j, z.active j)
    ]

module _ (uv : Uv) where
  after_shutdown-Leaves :
      (c : Caller) (r : Result (Unit {0})) (s : SocketImpl)
      → s.closed ≡ true
      → (reader_closes (close_wait c) ≡ true → s.reading ≡ false)
      → Leaves s (after_shutdown c r s)
  after_shutdown-Leaves user r s h k = ground arith
  after_shutdown-Leaves reader r s h k = ground arith

  shutdown_done-Leaves :
      (c : Caller) (status : ℤ) (s : SocketImpl)
      → s.closed ≡ true
      → (reader_closes (close_wait c) ≡ true → s.reading ≡ false)
      → Leaves s (shutdown_done uv c status s)
  unfolding shutdown_done
  shutdown_done-Leaves c status s h k = after_shutdown-Leaves c (check_uv_status uv status) s h k

  close-Leaves : (status : ℤ) (s : SocketImpl) → Leaves s (close uv user status s)
  unfolding close
  close-Leaves status s = ground arith

  close-quiet : (status : ℤ) (s : SocketImpl) → waits (close uv reader status s).1 ≡ false
  unfolding close
  close-quiet status s = ground arith

  read_finish-quiet : (status : ℤ) (s : SocketImpl) → waits (read_finish uv status s).1 ≡ false
  unfolding read_finish
  read_finish-quiet status s = ground (arith, close-quiet status (record s { reading = false }))

  read-Leaves :
      (buf size : ℕ) (begin status : ℤ) (s : SocketImpl)
      → Leaves s (read uv buf size begin status s)
  unfolding read
  read-Leaves buf size begin status s = elim (read_loop-cases uv status size began) [
    | inl (e, b, _) ↦ ground arith
    | inr e ↦ ground (arith, read_finish-quiet status began)
  ]
    where
      began : SocketImpl
      began = record s { reading = true; buf = buf; len = to_int64 size; active = true }

  write-Leaves : (status : ℤ) (s : SocketImpl) → Leaves s (s, write uv status s)
  unfolding write
  write-Leaves status s = ground arith

  write_done-Leaves : (status : ℤ) (s : SocketImpl) → Leaves s (s, write_done uv status)
  unfolding write_done
  write_done-Leaves status s = ground arith

close_returns-Leaves : (c : Caller) (s : SocketImpl) → Leaves s (close_returns c s)
close_returns-Leaves user s = ground arith
close_returns-Leaves reader s = ground arith

wake-Served : (s : System) → Served s → Served (record s { pc = λ j. wake (s.pc j) })
wake-Served s z = record {
  lent = λ i h. absurd (cc (asleep-wake (s.pc i), h));
  active = λ i h b. z.active i (rw waits-wake at h) b;
}

-- The reader looks again, and goes on waiting or ends; nobody else waits.
resume-Served :
    (uv : Uv) (s : System) (i size : ℕ) (status : ℤ)
    → OneReader s
    → Served s
    → waits (s.pc i) ≡ true
    → Served (put s i (read_loop uv status size s.socket))
resume-Served uv s i size status v z w = elim (read_loop-cases uv status size s.socket) [
  | inl (k, b, c) ↦ rw k (record { lent = λ j h. b; active = λ j h _. z.active i w b })
  | inr k ↦ rw k (record {
    lent = λ j h. absurd (gone j (asleep-waits _ h));
    active = λ j h b. absurd (gone j h);
  })
]
  where
    gone : (j : ℕ) → waits (update s.pc i (read_finish uv status s.socket).1 j) ≢ true
    gone j = ground (arith, v.alone i j, read_finish-quiet uv status s.socket)

on_read-Served :
    (uv : Uv) (nread : ℤ) (s : System)
    → Served (record { socket = read_done uv nread s.socket; pc = λ j. wake (s.pc j) })
unfolding read_done
on_read-Served uv nread s = record {
  lent = λ i h. absurd (cc (asleep-wake (s.pc i), h));
  active = λ i h b. absurd (b refl);
}

Step-Served : {uv : Uv} {s t : System} → Step uv s t → OneReader s → Served s → Served t
Step-Served {uv} {s} (call_read i buf size begin status e) v z =
    put-Served s i _ v z (read-Leaves uv buf size begin status s.socket)
Step-Served {uv} {s} (resume_read i size status e) v z = resume-Served uv s i size status v z (rw e)
Step-Served {uv} {s} (call_close i status e) v z =
    put-Served s i _ v z (close-Leaves uv status s.socket)
Step-Served {uv} {s} (end_shutdown i c status e) v z = put-Served s i _ v z (
    shutdown_done-Leaves uv c status s.socket (v.closing i (rw e))
      (λ h. v.ended i (rw e (same c h))))
  where
    same :
        (c : Caller) → reader_closes (close_wait c) ≡ true → reader_closes (shutdown_wait c) ≡ true
    same user h = h
    same reader h = refl
Step-Served {uv} {s} (end_close i c e) v z =
    put-Served (record s { pc = λ j. wake (s.pc j) }) i _ (wake-OneReader s v) (wake-Served s z)
      (close_returns-Leaves c s.socket)
Step-Served {uv} {s} (call_write i status e) v z =
    put-Served s i _ v z (write-Leaves uv status s.socket)
Step-Served {uv} {s} (end_write i status e) v z =
    put-Served s i _ v z (write_done-Leaves uv status s.socket)
Step-Served {uv} {s} (return i o e) v z =
    put-Served s i (s.socket, idle) v z
      (record { other = λ h. (refl, λ k. k); own = λ h. absurd (cc) })
Step-Served {uv} {s} (on_read nread e h) v z = on_read-Served uv nread s

-- In every reachable state a fiber that sleeps in `read` still has its buffer out, so that no data
-- has come for it; and while the buffer of a fiber in `read` is out, libuv reads into it or the
-- socket is closed.
pub Reach-Served : {uv : Uv} {s : System} → Reach uv s → Served s
Reach-Served start = record { lent = λ i h. absurd (cc); active = λ i h b. absurd (cc) }
Reach-Served (later r st) = Step-Served st (Reach-OneReader r) (Reach-Served r)
