-- ===== src/SocketImpl/System.antt =====
-- The fibers of one socket and libuv's callbacks, one after the other in any order.
pub mod Facts
pub mod Thrown
pub mod Invariant
pub mod Lent
pub mod Sized
pub mod Refines
pub mod Ended
pub mod Awake
pub mod Wakeup
use fiberio.Base.{
  ℕ, zero, suc, ◌+◌, ◌≡◌, ◌≤◌, refl, Bool, true, false, not, ◌&&◌, ◌||◌, List, [], ◌∷◌, ◌==◌,
  if◌then◌else◌, Option, none, some,
}
use fiberio.Base.Int.{ℤ, pos, negsuc, pos_part}
use fiberio.Errors.{Uv}
use fiberio.SocketImpl.{
  SocketImpl, Outcome, Caller, user, reader, Pc, idle, read_wait, shutdown_wait, close_wait,
  write_wait, result, to_size, close_returns, close, shutdown_done, read_loop, read, read_done,
  write, write_done,
}

pub record System : Type 0 where
  pub socket : SocketImpl
  pub pc : ℕ → Pc

abbrev pub update {ℓ} : {A : Type ℓ} → (ℕ → A) → ℕ → A → ℕ → A
update f i a j = if i == j then a else f j

-- `cond_.notify_all()`
abbrev pub wake : Pc → Pc
wake (read_wait asleep size) = read_wait false size
wake p = p

abbrev pub put : System → ℕ → SocketImpl × Pc → System
put s i (socket, p) = record { socket = socket; pc = update s.pc i p }

-- A call by a fiber that is idle, a step of a fiber that waits for nothing any more, or a callback;
-- the integers are the status codes that libuv gives on the way. libuv reports no more bytes than
-- the buffer that `alloc_callback` gave it holds.
pub data Step (uv : Uv) (s : System) : System → Type 0 where
  call_read :
      (i buf size : ℕ) (start status : ℤ)
      → s.pc i ≡ idle
      → Step uv s (put s i (read uv buf size start status s.socket))
  resume_read :
      (i size : ℕ) (status : ℤ)
      → s.pc i ≡ read_wait false size
      → Step uv s (put s i (read_loop uv status size s.socket))
  call_close :
      (i : ℕ) (status : ℤ) → s.pc i ≡ idle → Step uv s (put s i (close uv user status s.socket))
  end_shutdown :
      (i : ℕ) (c : Caller) (status : ℤ)
      → s.pc i ≡ shutdown_wait c
      → Step uv s (put s i (shutdown_done uv c status s.socket))
  end_close :
      (i : ℕ) (c : Caller)
      → s.pc i ≡ close_wait c
      → Step uv s (put (record s { pc = λ j. wake (s.pc j) }) i (close_returns c s.socket))
  call_write :
      (i : ℕ) (status : ℤ)
      → s.pc i ≡ idle
      → Step uv s (put s i (s.socket, write uv status s.socket))
  end_write :
      (i : ℕ) (status : ℤ)
      → s.pc i ≡ write_wait
      → Step uv s (put s i (s.socket, write_done uv status))
  return : (i : ℕ) (o : Outcome) → s.pc i ≡ result o → Step uv s (put s i (s.socket, idle))
  on_read :
      (nread : ℤ)
      → s.socket.active ≡ true
      → pos_part nread ≤ to_size s.socket.len
      → Step uv s (record { socket = read_done uv nread s.socket; pc = λ j. wake (s.pc j) })

pub data Reach (uv : Uv) : System → Type 0 where
  start : Reach uv (record { socket = fiberio.SocketImpl.new; pc = λ _. idle })
  later : {s t : System} → Reach uv s → Step uv s t → Reach uv t
