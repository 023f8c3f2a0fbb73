-- ===== src/SocketImpl.antt =====
-- src/socket_impl.cpp: one socket and the fibers that use it. Fibers are scheduled cooperatively:
-- the code between two points where a fiber waits runs at once, and is one function here.
pub mod System
pub mod Call
pub mod Session
use fiberio.Base.{
  ℕ, ◌+◌, ◌-◌, ◌^◌, ◌≡◌, refl, Bool, true, false, not, ◌&&◌, ◌||◌, ltb, ◌==◌, if◌then◌else◌, Text,
  codes,
}
use fiberio.Base.Int.{ℤ, pos, negsuc, sub_ℕ}
use fiberio.Errors.{
  Error, socket_closed_error, io_error, Uv, eq_ℤ, Result, ok, err, check_uv_status,
}

-- The fields of `socket_impl`. `buf` is the address of the reader's buffer, 0 for none; `active`
-- says that libuv was told to read and has not called back.
pub record SocketImpl : Type 0 where
  pub closed : Bool
  pub reading : Bool
  pub buf : ℕ
  pub len : ℤ
  pub active : Bool

abbrev pub new : SocketImpl
new = record { closed = false; reading = false; buf = 0; len = pos 0; active = false }

abbrev pub error_eof : ℤ
error_eof = negsuc 0

abbrev pub error_read_failed : ℤ
error_read_failed = negsuc 1

-- The conversions between `size_t` and `int64_t`.
abbrev pub to_int64 : ℕ → ℤ
to_int64 n = if ltb n (2 ^ 63) then pos n else sub_ℕ n (2 ^ 64)

abbrev pub to_size : ℤ → ℕ
to_size (pos n) = n
to_size (negsuc n) = 2 ^ 64 - 1 - n

-- What a call came to.
pub data Outcome : Type 0 where
  read_bytes : ℕ → Outcome
  finished : Outcome
  threw : Error → Outcome

-- Who called `close`: the user, or `read` at the end of the stream.
pub data Caller : Type 0 where
  user reader : Caller

-- Where a fiber stands. `read_wait` is in `wait_for_read_to_finish`, asleep until it is notified,
-- with the size of its buffer; `shutdown_wait` and `close_wait` are in `close`.
pub data Pc : Type 0 where
  idle : Pc
  read_wait : Bool → ℕ → Pc
  shutdown_wait : Caller → Pc
  close_wait : Caller → Pc
  write_wait : Pc
  result : Outcome → Pc

-- The end of `close`, and of `read` if that called it.
abbrev pub close_returns : Caller → SocketImpl → SocketImpl × Pc
close_returns user s = (s, result finished)
close_returns reader s = (record s { len = pos 0 }, result (read_bytes 0))

-- An exception out of `close`; `read` catches it, clears its fields and throws it again.
abbrev pub close_throws : Caller → Error → SocketImpl → SocketImpl × Pc
close_throws user e s = (s, result (threw e))
close_throws reader e s = (record s { buf = 0; reading = false }, result (threw e))

-- `close` after `shutdown` has returned or thrown: `socket_closed_error` is caught. `uv_close` stops
-- a read that is under way.
abbrev pub after_shutdown : Caller → Result (Unit {0}) → SocketImpl → SocketImpl × Pc
after_shutdown c (ok _) s = (record s { active = false }, close_wait c)
after_shutdown c (err socket_closed_error) s = (record s { active = false }, close_wait c)
after_shutdown c (err e) s = close_throws c e s

module _ (uv : Uv) where
  -- `close()` up to its first wait; `status` is what `uv_shutdown` returns.
  unfoldable pub close : Caller → ℤ → SocketImpl → SocketImpl × Pc
  close c status s = if s.closed then close_returns c s else elim (check_uv_status uv status) [
    | ok _ ↦ (record s { closed = true }, shutdown_wait c)
    | err e ↦ after_shutdown c (err e) (record s { closed = true })
  ]

  -- `shutdown_callback` and what follows it in `close`.
  unfoldable pub shutdown_done : Caller → ℤ → SocketImpl → SocketImpl × Pc
  shutdown_done c status s = after_shutdown c (check_uv_status uv status) s

  -- `read` after the wait; `status` is what `uv_shutdown` returns if the stream has ended.
  unfoldable pub read_finish : ℤ → SocketImpl → SocketImpl × Pc
  read_finish status this =
      let s = record this { reading = false } in
      if eq_ℤ s.len error_eof
      then close reader status s
      else if eq_ℤ s.len error_read_failed
      then (record s { buf = 0 }, result (threw (io_error (codes "read failed"))))
      else if s.closed
      then (record s { len = pos 0 }, result (read_bytes 0))
      else (s, result (read_bytes (to_size s.len)))

  -- The loop of `wait_for_read_to_finish`, entered or woken, and the rest of `read`.
  unfoldable pub read_loop : ℤ → ℕ → SocketImpl → SocketImpl × Pc
  read_loop status size s =
      if not (s.buf == 0) && not s.closed then (s, read_wait true size) else read_finish status s

  -- `read(buf, size)` up to its first wait; `start` is what `uv_read_start` returns.
  unfoldable pub read : ℕ → ℕ → ℤ → ℤ → SocketImpl → SocketImpl × Pc
  read buf size start status s =
      if s.closed
      then (s, result (threw socket_closed_error))
      else if s.reading
      then (s, result (threw (io_error (codes "concurrent read"))))
      else elim (check_uv_status uv start) [
        | ok _ ↦
            read_loop status size
              (record s { reading = true; buf = buf; len = to_int64 size; active = true })
        | err e ↦ (record s { reading = false; buf = 0; len = to_int64 size }, result (threw e))
      ]

  -- The argument of `on_read_finished` for what libuv reports.
  abbrev pub read_length : ℤ → ℤ
  read_length (pos n) = pos n
  read_length (negsuc n) = if eq_ℤ (negsuc n) uv.uv_eof then error_eof else error_read_failed

  -- `read_callback`: the read is stopped and `on_read_finished` called.
  unfoldable pub read_done : ℤ → SocketImpl → SocketImpl
  read_done nread s = record s { active = false; buf = 0; len = read_length nread }

  -- `write(data, len)` up to its wait; `status` is what `uv_write` returns.
  unfoldable pub write : ℤ → SocketImpl → Pc
  write status s =
      if s.closed
      then result (threw socket_closed_error)
      else elim (check_uv_status uv status) [ ok _ ↦ write_wait | err e ↦ result (threw e) ]

  -- `write_callback` and the end of `write`.
  unfoldable pub write_done : ℤ → Pc
  write_done status = elim (check_uv_status uv status) [
    | ok _ ↦ result finished
    | err e ↦ result (threw e)
  ]
