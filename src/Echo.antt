-- ===== src/Echo.antt =====
-- The programs examples/fiber_echo_server.cpp and examples/fiber_echo_client.cpp: what a fiber of each
-- does with its socket.
pub mod Server
pub mod Client
pub mod Conversation
use fiberio.Base.{ℕ, zero, suc, ◌+◌, Bool, true, false, [], ◌∷◌, Option, none, some, Text, length}
use fiberio.Errors.{Result, ok, err}
use fiberio.Duplex.{Duplex}
use fiberio.Socket.{read_exactly}

-- `sizeof(buf)` of the server.
abbrev pub buffer_size : ℕ
buffer_size = 4096

module _ {S : Type 0} (d : Duplex S) where
  open d use {reader, write}

  -- The loop of the server's fiber. `none` means that the fuel ran out.
  pub serve_loop : ℕ → S → Option (Result (Unit {0}) × S)
  serve_loop zero s = none
  serve_loop (suc fuel) s = elim (reader.is_open s) [
    | false ↦ some (ok tt, s)
    | true ↦ elim (reader.read buffer_size s).0 [
      | err e ↦ some (err e, (reader.read buffer_size s).1)
      | ok bytes ↦ elim (write bytes (reader.read buffer_size s).1).0 [
        | err e ↦ some (err e, (write bytes (reader.read buffer_size s).1).1)
        | ok _ ↦ serve_loop fuel (write bytes (reader.read buffer_size s).1).1
      ]
    ]
  ]

  -- Each round but the last reads at least a byte.
  unfoldable pub serve : S → Option (Result (Unit {0}) × S)
  unfolding serve_loop
  serve s = serve_loop (length (reader.coming s) + 1) s

-- `num_iterations` and `buf` of the client.
abbrev pub num_iterations : ℕ
num_iterations = 50

abbrev pub letter : Text
letter = b'a' ∷ []

module _ {S : Type 0} (d : Duplex S) (close : S → Result (Unit {0}) × S) where
  open d use {reader, write}

  -- The loop of a client's fiber, and its `close`.
  unfoldable pub rounds : ℕ → S → Option (Result (Unit {0}) × S)
  rounds zero s = some (close s)
  rounds (suc n) s = elim (write letter s).0 [
    | err e ↦ some (err e, (write letter s).1)
    | ok _ ↦ elim (read_exactly reader 1 (write letter s).1) [
      | none ↦ none
      | some (r, s') ↦ elim r [ err e ↦ some (err e, s') | ok _ ↦ rounds n s' ]
    ]
  ]

  unfoldable pub run_client : S → Option (Result (Unit {0}) × S)
  unfolding rounds
  run_client s = rounds num_iterations s
