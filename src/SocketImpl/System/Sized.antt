-- ===== src/SocketImpl/System/Sized.antt =====
-- The number of bytes that `read` reports, and its buffer.
use fiberio.Base.{ℕ, ◌^◌, ◌≡◌, ◌≤◌, ◌<◌, refl, Bool, true, false, ◌==◌, arith, Bool-cases, inl, inr}
use fiberio.Base.Int.{ℤ, pos_part}
use fiberio.Errors.{Uv}
use fiberio.SocketImpl.{
  SocketImpl, read_bytes, Caller, user, reader, Pc, idle, read_wait, shutdown_wait, close_wait,
  write_wait, result, to_size, close_returns, close, shutdown_done, read_finish, read_loop,
  read_done, write, write_done,
}
use fiberio.SocketImpl.System.{
  System, wake, put, Step, call_read, resume_read, call_close, end_shutdown, end_close, call_write,
  end_write, return, on_read, Reach, start, later,
}
use fiberio.SocketImpl.System.Facts.{read_loop-cases}
use fiberio.SocketImpl.System.Invariant.{OneReader, wake-OneReader, Reach-OneReader}
use fiberio.SocketImpl.System.Lent.{
  Fits, Lent, Fits-other, Keeps, Keeps-Lent, shutdown_done-Keeps, close-Keeps, read_finish-Keeps,
  read-Lent, write-Keeps, write_done-Keeps, close_returns-Keeps, read_done-Fits,
}

abbrev pub Sized : System → Type 0
Sized s =
    (i n : ℕ) (a : Bool) → s.pc i ≡ read_wait a n → n < 2 ^ 63 → Fits s.socket.active n s.socket.len

put-Sized :
    (s : System) (i : ℕ) (r : SocketImpl × Pc)
    → OneReader s
    → Sized s
    → Lent s.socket r
    → Sized (put s i r)
put-Sized s i (socket, p) v z l = λ j n a e lt. elim (Bool-cases (i == j)) [
  | inl y ↦ l.own n a (ground arith) lt
  | inr y ↦
      Fits-other s.socket.active socket.active n s.socket.len socket.len (z j n a (ground arith) lt)
        (l.other (v.busy j (ground arith))).0 (l.other (v.busy j (ground arith))).1
]

wake-read_wait :
    (p : Pc) (a : Bool) (n : ℕ) → wake p ≡ read_wait a n → (b : Bool) × (p ≡ read_wait b n)
wake-read_wait (read_wait b m) a n e = (b, ground arith)
wake-read_wait idle a n e = absurd (cc)
wake-read_wait (shutdown_wait c) a n e = absurd (cc)
wake-read_wait (close_wait c) a n e = absurd (cc)
wake-read_wait write_wait a n e = absurd (cc)
wake-read_wait (result o) a n e = absurd (cc)

wake-Sized : (s : System) → Sized s → Sized (record s { pc = λ j. wake (s.pc j) })
wake-Sized s z i n a e lt = let (b, k) = wake-read_wait (s.pc i) a n e in z i n b k lt

module _ (uv : Uv) (s : System) (v : OneReader s) (z : Sized s) where
  kept-Sized : (i : ℕ) (r : SocketImpl × Pc) → Keeps s.socket r → Sized (put s i r)
  kept-Sized i r k = put-Sized s i r v z (Keeps-Lent s.socket r k)

  resume-Sized :
      (i size : ℕ) (status : ℤ)
      → s.pc i ≡ read_wait false size
      → Sized (put s i (read_loop uv status size s.socket))
  resume-Sized i size status e = elim (read_loop-cases uv status size s.socket) [
    | inl (k, _, _) ↦ rw k (
        put-Sized s i (s.socket, read_wait true size) v z
          (record {
            other = λ _. (inl refl, λ h. h);
            own = λ n a q lt. z i n false (ground arith) lt;
          }))
    | inr k ↦
        rw k (kept-Sized i (read_finish uv status s.socket) (read_finish-Keeps uv status s.socket))
  ]

  end_close-Sized :
      (i : ℕ) (c : Caller)
      → Sized (put (record s { pc = λ j. wake (s.pc j) }) i (close_returns c s.socket))
  end_close-Sized i c =
      put-Sized (record s { pc = λ j. wake (s.pc j) }) i (close_returns c s.socket)
        (wake-OneReader s v) (wake-Sized s z)
        (Keeps-Lent s.socket _ (close_returns-Keeps uv c s.socket))

  on_read-Sized :
      (nread : ℤ)
      → s.socket.active ≡ true
      → pos_part nread ≤ to_size s.socket.len
      → Sized (record { socket = read_done uv nread s.socket; pc = λ j. wake (s.pc j) })
  unfolding read_done
  on_read-Sized nread a h i n b e lt =
      read_done-Fits uv s.socket.active s.socket.len nread n a h (wake-Sized s z i n b e lt)

Step-Sized : {uv : Uv} {s t : System} → Step uv s t → OneReader s → Sized s → Sized t
Step-Sized {uv} {s} (call_read i buf size begin status e) v z =
    put-Sized s i _ v z (read-Lent uv buf size begin status s.socket)
Step-Sized {uv} {s} (resume_read i size status e) v z = resume-Sized uv s v z i size status e
Step-Sized {uv} {s} (call_close i status e) v z =
    kept-Sized uv s v z i (close uv user status s.socket) (close-Keeps uv user status s.socket)
Step-Sized {uv} {s} (end_shutdown i c status e) v z =
    kept-Sized uv s v z i (shutdown_done uv c status s.socket)
      (shutdown_done-Keeps uv c status s.socket)
Step-Sized {uv} {s} (end_close i c e) v z = end_close-Sized uv s v z i c
Step-Sized {uv} {s} (call_write i status e) v z =
    kept-Sized uv s v z i (s.socket, write uv status s.socket) (write-Keeps uv status s.socket)
Step-Sized {uv} {s} (end_write i status e) v z =
    kept-Sized uv s v z i (s.socket, write_done uv status) (write_done-Keeps uv status s.socket)
Step-Sized {uv} {s} (return i o e) v z =
    kept-Sized uv s v z i (s.socket, idle) (refl, inl refl, λ h. h)
Step-Sized {uv} {s} (on_read nread e h) v z = on_read-Sized uv s v z nread e h

pub Reach-Sized : {uv : Uv} {s : System} → Reach uv s → Sized s
Reach-Sized start = λ i n a e lt. absurd (cc)
Reach-Sized (later r st) = Step-Sized st (Reach-OneReader r) (Reach-Sized r)

module _ (uv : Uv) where
  close-bytes :
      (status : ℤ) (s : SocketImpl) (n : ℕ)
      → (close uv reader status s).1 ≡ result (read_bytes n)
      → n ≡ 0
  unfolding close
  close-bytes status s n e = ground arith

  read_finish-le :
      (status : ℤ) (s : SocketImpl) (size n : ℕ)
      → Fits s.active size s.len
      → (read_finish uv status s).1 ≡ result (read_bytes n)
      → n ≤ size
  unfolding read_finish
  read_finish-le status s size n f e =
      ground (arith, close-bytes status (record s { reading = false }) n)

-- In every reachable state, if a fiber's wait in `read` ends with a number of bytes, they are no
-- more than its buffer of fewer than 2^63 bytes holds.
pub read_loop-le :
    {uv : Uv} {s : System} (i size n : ℕ) (status : ℤ)
    → Reach uv s
    → size < 2 ^ 63
    → s.pc i ≡ read_wait false size
    → (read_loop uv status size s.socket).1 ≡ result (read_bytes n)
    → n ≤ size
read_loop-le {uv} {s} i size n status r lt e q = elim (read_loop-cases uv status size s.socket) [
  | inl (k, _, _) ↦ absurd (cc k)
  | inr k ↦ read_finish-le uv status s.socket size n (Reach-Sized r i size false e lt) (rw (← k) q)
]
