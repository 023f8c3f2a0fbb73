-- ===== src/SocketImpl/Call.antt =====
-- One whole call of `read` by the only fiber that uses a socket, against the answers of libuv: how
-- src/socket_impl.cpp provides what src/socket.cpp and include/fiberio/iostream.hpp rely on.
pub mod Contract
pub mod Implements
pub mod Writing
pub mod ImplementsDuplex
use Prim.Native.Nat.{min}
use fiberio.Base.{
  ℕ, zero, suc, ◌+◌, Bool, true, false, not, List, [], ◌∷◌, Option, none, some, if◌then◌else◌, Text,
  length, take, drop,
}
use fiberio.Base.Int.{ℤ, pos, negsuc}
use fiberio.Errors.{runtime_error, Uv, Result, ok, err}
use fiberio.SocketImpl.{
  SocketImpl, Outcome, read_bytes, finished, threw, Pc, read_wait, shutdown_wait, close_wait,
  result, close_returns, shutdown_done, read_loop, read, read_done,
}

-- What libuv does in one call: the status of `uv_read_start`, the error that the read reports instead
-- of bytes, how many bytes come besides the first, and, at the end of the stream, the statuses of
-- `uv_shutdown` and of its callback.
pub record Answer : Type 0 where
  pub start : ℤ
  pub failure : Option ℕ
  pub more : ℕ
  pub shutdown : ℤ
  pub shut_down : ℤ

-- The bytes that the other side has still to deliver, and the answers, of which `turn` are used up.
pub record Wire : Type 0 where
  pub socket : SocketImpl
  pub coming : Text
  pub answers : ℕ → Answer
  pub turn : ℕ

-- The first `n` bytes of a buffer of zeros once `got` has been put into its beginning: a count larger than
-- what has come gives bytes that nobody has sent.
abbrev pub first_of_buffer : ℕ → Text → Text
first_of_buffer zero got = []
first_of_buffer (suc n) [] = 0 ∷ first_of_buffer n []
first_of_buffer (suc n) (b ∷ got) = b ∷ first_of_buffer n got

-- `enobufs` is UV_ENOBUFS, less one and without its sign.
module _ (uv : Uv) (enobufs : ℕ) where
  -- What `read_callback` is called with: a buffer of no bytes is an error for libuv, and of what has
  -- come it reports at least a byte.
  abbrev pub report : Answer → ℕ → Text → ℤ × Text
  report a zero t = (negsuc enobufs, [])
  report a (suc n) t = elim a.failure [
    | some code ↦ (negsuc code, [])
    | none ↦ elim t [
      | [] ↦ (uv.uv_eof, [])
      | b ∷ rest ↦ let got = take (min n a.more) rest in (pos (suc (length got)), b ∷ got)
    ]
  ]

  -- The waits of `close`, until the call has ended.
  abbrev pub closes : SocketImpl × Pc → SocketImpl × Pc
  closes (s, close_wait c) = close_returns c s
  closes r = r

  abbrev pub settle : Answer → SocketImpl × Pc → SocketImpl × Pc
  settle a (s, shutdown_wait c) = closes (shutdown_done uv c a.shut_down s)
  settle a r = closes r

  -- The callback, and the rest of `read`.
  unfoldable pub woken : Answer → ℤ → ℕ → SocketImpl → SocketImpl × Pc
  woken a nread size s = settle a (read_loop uv a.shutdown size (read_done uv nread s))

  -- What stands in the caller's buffer, as far as `read` says that it has filled it.
  abbrev pub returned : Text → Pc → Result Text
  returned got (result (read_bytes n)) = ok (first_of_buffer n got)
  returned got (result (threw e)) = err e
  returned got _ = err (runtime_error [])

  -- From the wait on, if the call has come to it.
  abbrev pub resume : ℕ → ℕ → Wire → SocketImpl × Pc → Result Text × Wire
  resume turn size w (s, read_wait _ _) =
      let a = w.answers w.turn in
      let (nread, got) = report a size w.coming in
      let (s', p) = woken a nread size s in
      (returned got p, record w { socket = s'; coming = drop (length got) w.coming; turn = turn })
  resume turn size w (s, p) = (returned [] p, record w { socket = s; turn = turn })

  unfoldable pub call : ℕ → Wire → Result Text × Wire
  call size w =
      let a = w.answers w.turn in
      let turn = if w.socket.closed then w.turn else suc w.turn in
      resume turn size w (read uv 1 size a.start a.shutdown w.socket)
