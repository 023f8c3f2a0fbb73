-- ===== src/ServerSocketImpl/System.antt =====
-- The fibers that accept from one listening socket, libuv's connection callbacks and `close`.
pub mod Accepting
pub mod Drained
use fiberio.Base.{ℕ, suc, ◌+◌, ◌≡◌, Bool, true, false, ◌==◌, if◌then◌else◌}
use fiberio.Base.Int.{ℤ}
use fiberio.Errors.{Uv}
use fiberio.ServerSocketImpl.{
  ServerSocketImpl, new, Pc, idle, accept_wait, close_wait, Outcome, closed_down, result,
  on_connection, close, accept,
}

-- `arrived` counts the connection callbacks and `taken` the connections that `accept` went for.
pub record System : Type 0 where
  pub socket : ServerSocketImpl
  pub pc : ℕ → Pc
  pub arrived : ℕ
  pub taken : ℕ

abbrev pub update {ℓ} : {A : Type ℓ} → (ℕ → A) → ℕ → A → ℕ → A
update f i a j = if i == j then a else f j

-- `cond_.notify_all()`
abbrev pub wake : Pc → Pc
wake (accept_wait asleep) = accept_wait false
wake p = p

-- One more connection is taken unless the fiber waits or finds the socket closed.
abbrev pub takes : ServerSocketImpl → Pc → ℕ
takes s (accept_wait _) = 0
takes s p = if s.closed then 0 else 1

abbrev pub put_accept : System → ℕ → ServerSocketImpl × Pc → System
put_accept s i (socket, p) = record s {
  socket = socket;
  pc = update s.pc i p;
  taken = s.taken + takes socket p;
}

abbrev pub put : System → ℕ → ServerSocketImpl × Pc → System
put s i (socket, p) = record s { socket = socket; pc = update s.pc i p }

-- A call by a fiber that is idle, a step of a fiber that may go on, or a callback; the integers are
-- the status codes of libuv.
pub data Step (uv : Uv) (s : System) : System → Type 0 where
  call_accept :
      (i : ℕ) (status : ℤ) → s.pc i ≡ idle → Step uv s (put_accept s i (accept uv status s.socket))
  resume_accept :
      (i : ℕ) (status : ℤ)
      → s.pc i ≡ accept_wait false
      → Step uv s (put_accept s i (accept uv status s.socket))
  call_close : (i : ℕ) → s.pc i ≡ idle → Step uv s (put s i (close s.socket))
  end_close :
      (i : ℕ)
      → s.pc i ≡ close_wait
      → Step uv s (put (record s { pc = λ j. wake (s.pc j) }) i (s.socket, result closed_down))
  return : (i : ℕ) (o : Outcome) → s.pc i ≡ result o → Step uv s (put s i (s.socket, idle))
  arrives :
      (status : ℤ)
      → Step uv s (record s {
        socket = on_connection status s.socket;
        pc = λ j. wake (s.pc j);
        arrived = suc s.arrived;
      })

pub data Reach (uv : Uv) : System → Type 0 where
  start : Reach uv (record { socket = new; pc = λ _. idle; arrived = 0; taken = 0 })
  later : {s t : System} → Reach uv s → Step uv s t → Reach uv t
