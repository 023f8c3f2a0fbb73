-- ===== src/SocketImpl/System/Thrown.antt =====
-- The exceptions that come out of `read`, `write` and `close` of src/socket_impl.cpp.
use fiberio.Base.{ℕ, ◌≡◌, refl, Bool, true, false, not, ◌&&◌, ◌||◌, codes, text_eq, arith}
use fiberio.Base.Int.{ℤ, pos, ltb_ℤ}
use fiberio.Errors.{
  Error, socket_closed_error, address_family_not_supported_error, io_error, uv_error, runtime_error,
  Uv, Result, ok, err, eq_ℤ, check_uv_status,
}
use fiberio.SocketImpl.{
  SocketImpl, threw, Caller, user, reader, Pc, idle, read_wait, result, to_int64, close_returns,
  after_shutdown, close, shutdown_done, read_finish, read_loop, read, write, write_done,
}
use fiberio.SocketImpl.System.{
  System, wake, put, Step, call_read, resume_read, call_close, end_shutdown, end_close, call_write,
  end_write, return, on_read, Reach, start, later,
}

module _ (uv : Uv) where
  -- A negative status that has no class of its own.
  abbrev pub unnamed : ℤ → Bool
  unnamed status =
      ltb_ℤ status (pos 0)
      && (not (eq_ℤ status uv.uv_enotconn || eq_ℤ status uv.uv_ebadf)
          && not (eq_ℤ status uv.uv_eai_addrfamily))

  abbrev pub known : Error → Bool
  known socket_closed_error = true
  known address_family_not_supported_error = true
  known (io_error text) =
      text_eq text (codes "concurrent read") || text_eq text (codes "read failed")
  known (uv_error status) = unnamed status
  known (runtime_error _) = false

  abbrev pub told : Pc → Bool
  told (result (threw e)) = known e
  told _ = true

  abbrev known_result : Result (Unit {0}) → Bool
  known_result (ok _) = true
  known_result (err e) = known e

  check-known : (status : ℤ) → known_result (check_uv_status uv status) ≡ true
  unfolding check_uv_status
  check-known status = ground arith

  after_shutdown-told :
      (c : Caller) (r : Result (Unit {0})) (s : SocketImpl)
      → known_result r ≡ true
      → told (after_shutdown c r s).1 ≡ true
  after_shutdown-told user (ok _) s h = refl
  after_shutdown-told user (err socket_closed_error) s h = refl
  after_shutdown-told user (err e) s h = h
  after_shutdown-told reader (ok _) s h = refl
  after_shutdown-told reader (err socket_closed_error) s h = refl
  after_shutdown-told reader (err e) s h = h

  close-told : (c : Caller) (status : ℤ) (s : SocketImpl) → told (close uv c status s).1 ≡ true
  unfolding close
  close-told user status s = ground (arith, check-known status)
  close-told reader status s = ground (arith, check-known status)

  read_finish-told : (status : ℤ) (s : SocketImpl) → told (read_finish uv status s).1 ≡ true
  unfolding read_finish text_eq
  read_finish-told status s =
      ground (arith, close-told reader status (record s { reading = false }))

  read_loop-told :
      (status : ℤ) (size : ℕ) (s : SocketImpl) → told (read_loop uv status size s).1 ≡ true
  unfolding read_loop
  read_loop-told status size s = ground (arith, read_finish-told status s)

  read-told :
      (buf size : ℕ) (begin status : ℤ) (s : SocketImpl)
      → told (read uv buf size begin status s).1 ≡ true
  unfolding read text_eq
  read-told buf size begin status s = ground (
    arith,
    check-known begin,
    read_loop-told status size
        (record s { reading = true; buf = buf; len = to_int64 size; active = true }),
  )

  write-told : (status : ℤ) (s : SocketImpl) → told (write uv status s) ≡ true
  unfolding write
  write-told status s = ground (arith, check-known status)

  write_done-told : (status : ℤ) → told (write_done uv status) ≡ true
  unfolding write_done
  write_done-told status = ground (arith, check-known status)

told-wake : (uv : Uv) (p : Pc) → told uv (wake p) ≡ told uv p
told-wake uv (read_wait a n) = refl
told-wake uv p = refl

-- Each fiber's exception is among these.
abbrev pub Told : Uv → System → Type 0
Told uv s = (i : ℕ) → told uv (s.pc i) ≡ true

put-Told :
    (uv : Uv) (s : System) (i : ℕ) (r : SocketImpl × Pc)
    → Told uv s
    → told uv r.1 ≡ true
    → Told uv (put s i r)
put-Told uv s i (socket, p) v h j = ground (arith, v j)

close_returns-told : (uv : Uv) (c : Caller) (s : SocketImpl) → told uv (close_returns c s).1 ≡ true
close_returns-told uv user s = refl
close_returns-told uv reader s = refl

wake-Told : (uv : Uv) (s : System) → Told uv s → Told uv (record s { pc = λ j. wake (s.pc j) })
wake-Told uv s v j = rw (told-wake uv (s.pc j)) (v j)

Step-Told : {uv : Uv} {s t : System} → Step uv s t → Told uv s → Told uv t
unfolding shutdown_done
Step-Told {uv} {s} (call_read i buf size begin status e) v =
    put-Told uv s i (read uv buf size begin status s.socket) v
      (read-told uv buf size begin status s.socket)
Step-Told {uv} {s} (resume_read i size status e) v =
    put-Told uv s i (read_loop uv status size s.socket) v (read_loop-told uv status size s.socket)
Step-Told {uv} {s} (call_close i status e) v =
    put-Told uv s i (close uv user status s.socket) v (close-told uv user status s.socket)
Step-Told {uv} {s} (end_shutdown i c status e) v =
    put-Told uv s i (after_shutdown c (check_uv_status uv status) s.socket) v
      (after_shutdown-told uv c (check_uv_status uv status) s.socket (check-known uv status))
Step-Told {uv} {s} (end_close i c e) v =
    put-Told uv (record s { pc = λ j. wake (s.pc j) }) i (close_returns c s.socket)
      (wake-Told uv s v) (close_returns-told uv c s.socket)
Step-Told {uv} {s} (call_write i status e) v =
    put-Told uv s i (s.socket, write uv status s.socket) v (write-told uv status s.socket)
Step-Told {uv} {s} (end_write i status e) v =
    put-Told uv s i (s.socket, write_done uv status) v (write_done-told uv status)
Step-Told {uv} {s} (return i o e) v = put-Told uv s i (s.socket, idle) v refl
Step-Told {uv} {s} (on_read nread e h) v = wake-Told uv s v

-- In every reachable state the exception that a fiber has got from `read`, `write` or `close` is a
-- `socket_closed_error`, an `address_family_not_supported_error`, the `io_error` "concurrent read"
-- or "read failed", or the `uv_error` of a negative status that has no class of its own, and no
-- other.
pub Reach-Told : {uv : Uv} {s : System} → Reach uv s → Told uv s
Reach-Told start = λ i. refl
Reach-Told (later r st) = Step-Told st (Reach-Told r)
