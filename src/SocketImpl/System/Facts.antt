-- ===== src/SocketImpl/System/Facts.antt =====
-- What the functions of src/socket_impl.cpp do to `reading_` and `closed_` up to their next wait.
use fiberio.Base.{
  ℕ, ◌≡◌, refl, Bool, true, false, not, ◌&&◌, ◌==◌, arith, Bool-cases, inl, inr, ◌⊎◌, ◌≢◌, if_true,
  if_false,
}
use fiberio.Base.Int.{ℤ}
use fiberio.Errors.{Uv, Result, check_uv_status}
use fiberio.SocketImpl.{
  SocketImpl, Caller, user, reader, Pc, idle, read_wait, shutdown_wait, close_wait, to_int64,
  close_returns, after_shutdown, close, shutdown_done, read_finish, read_loop, read, write,
  write_done,
}
use fiberio.SocketImpl.System.{wake}

abbrev pub waits : Pc → Bool
waits (read_wait _ _) = true
waits _ = false

abbrev pub in_close : Pc → Bool
in_close (shutdown_wait _) = true
in_close (close_wait _) = true
in_close _ = false

abbrev pub reader_closes : Pc → Bool
reader_closes (shutdown_wait reader) = true
reader_closes (close_wait reader) = true
reader_closes _ = false

-- What the steps of a fiber that does not wait in `read` do to the flags.
pub record Facts (s : SocketImpl) (r : SocketImpl × Pc) : Type 0 where
  pub enters : waits r.1 ≡ true → (s.reading ≡ false) × (s.closed ≡ false) × (r.0.reading ≡ true)
  pub keeps : waits r.1 ≡ false → r.0.reading ≡ s.reading
  pub closes : in_close r.1 ≡ true → r.0.closed ≡ true
  pub by_reader : reader_closes r.1 ≡ true → r.0.reading ≡ false
  pub mono : s.closed ≡ true → r.0.closed ≡ true

module _ (uv : Uv) where
  after_shutdown-Facts :
      (c : Caller) (r : Result (Unit {0})) (s : SocketImpl)
      → s.closed ≡ true
      → (reader_closes (close_wait c) ≡ true → s.reading ≡ false)
      → Facts s (after_shutdown c r s)
  after_shutdown-Facts user r s h k = ground arith
  after_shutdown-Facts reader r s h k = ground arith

  pub close-Facts :
      (c : Caller) (status : ℤ) (s : SocketImpl)
      → (reader_closes (close_wait c) ≡ true → s.reading ≡ false)
      → Facts s (close uv c status s)
  unfolding close
  close-Facts user status s k = ground arith
  close-Facts reader status s k = ground arith

  pub read_finish-Facts :
      (status : ℤ) (s : SocketImpl) → s.reading ≡ false → Facts s (read_finish uv status s)
  unfolding read_finish
  read_finish-Facts status s h =
      ground (arith, close-Facts reader status (record s { reading = false }))

  pub close-waits :
      (c : Caller) (status : ℤ) (s : SocketImpl) → waits (close uv c status s).1 ≡ false
  unfolding close
  close-waits user status s = ground arith
  close-waits reader status s = ground arith

  pub read_finish-waits : (status : ℤ) (s : SocketImpl) → waits (read_finish uv status s).1 ≡ false
  unfolding read_finish
  read_finish-waits status s =
      ground (arith, close-waits reader status (record s { reading = false }))

  -- `read` goes on waiting with nothing changed, or ends with `reading_` cleared.
  pub read_loop-cases :
      (status : ℤ) (size : ℕ) (s : SocketImpl)
      → ((read_loop uv status size s ≡ (s, read_wait true size)) × (s.buf ≢ 0) × (s.closed ≡ false))
        ⊎ (read_loop uv status size s ≡ read_finish uv status s)
  unfolding read_loop
  read_loop-cases status size s = elim (Bool-cases (not (s.buf == 0) && not s.closed)) [
    | inl e ↦ inl (if_true _ _ e, ground arith, ground arith)
    | inr e ↦ inr (if_false _ _ e)
  ]

  pub read_finish-reading :
      (status : ℤ) (s : SocketImpl) → (read_finish uv status s).0.reading ≡ false
  unfolding read_finish
  read_finish-reading status s = ground (
    arith,
    close-Facts reader status (record s { reading = false }),
    close-waits reader status (record s { reading = false }),
  )

  pub read_finish-closed :
      (status : ℤ) (s : SocketImpl)
      → (s.closed ≡ true → (read_finish uv status s).0.closed ≡ true)
        × (in_close (read_finish uv status s).1 ≡ true → (read_finish uv status s).0.closed ≡ true)
  unfolding read_finish
  read_finish-closed status s =
      ground (arith, close-Facts reader status (record s { reading = false }))

  pub read-Facts :
      (buf size : ℕ) (begin status : ℤ) (s : SocketImpl) → Facts s (read uv buf size begin status s)
  unfolding read
  read-Facts buf size begin status s = elim (read_loop-cases status size began) [
    | inl (e, _, _) ↦ ground arith
    | inr e ↦ ground (
      arith,
      read_finish-waits status began,
      read_finish-reading status began,
      read_finish-closed status began,
    )
  ]
    where
      began : SocketImpl
      began = record s { reading = true; buf = buf; len = to_int64 size; active = true }

pub waits-wake : (p : Pc) → waits (wake p) ≡ waits p
waits-wake (read_wait a n) = refl
waits-wake p = refl

pub in_close-wake : (p : Pc) → in_close (wake p) ≡ in_close p
in_close-wake (read_wait a n) = refl
in_close-wake p = refl

pub reader_closes-wake : (p : Pc) → reader_closes (wake p) ≡ reader_closes p
reader_closes-wake (read_wait a n) = refl
reader_closes-wake p = refl

pub same_caller :
    (c : Caller) → reader_closes (close_wait c) ≡ true → reader_closes (shutdown_wait c) ≡ true
same_caller user h = h
same_caller reader h = refl

pub close_returns-Facts : (c : Caller) (s : SocketImpl) → Facts s (close_returns c s)
close_returns-Facts user s = ground arith
close_returns-Facts reader s = ground arith

pub quiet-Facts :
    (s : SocketImpl) (p : Pc) → (waits p ≡ false) × (in_close p ≡ false) → Facts s (s, p)
quiet-Facts s idle h = ground arith
quiet-Facts s p h = ground arith

module _ (uv : Uv) where
  pub shutdown_done-Facts :
      (c : Caller) (status : ℤ) (s : SocketImpl)
      → s.closed ≡ true
      → (reader_closes (close_wait c) ≡ true → s.reading ≡ false)
      → Facts s (shutdown_done uv c status s)
  unfolding shutdown_done
  shutdown_done-Facts c status s h k = after_shutdown-Facts uv c (check_uv_status uv status) s h k

  pub write-quiet :
      (status : ℤ) (s : SocketImpl)
      → (waits (write uv status s) ≡ false) × (in_close (write uv status s) ≡ false)
  unfolding write
  write-quiet status s = ground arith

  pub write_done-quiet :
      (status : ℤ)
      → (waits (write_done uv status) ≡ false) × (in_close (write_done uv status) ≡ false)
  unfolding write_done
  write_done-quiet status = ground arith
