-- ===== src/SocketDevice.antt =====
-- class socket_device of include/fiberio/iostream.hpp: a socket as a device of Boost.IOStreams.
pub mod Reading
pub mod Order
pub mod Writing
use fiberio.Base.{
  ℕ, zero, suc, ◌+◌, ◌-◌, Bool, true, false, ◌&&◌, ◌||◌, List, [], ◌∷◌, ◌++◌, Option, none, some,
  ltb, if◌then◌else◌, Text, length,
}
use fiberio.Errors.{Error, Result, ok, err}
use fiberio.Reader.{Reader}
use fiberio.Duplex.{Duplex}

module _ {S : Type 0} (r : Reader S) where
  open r use {read, is_open}

  -- The loop of `read(s, n)`, with what stands in the buffer so far.
  pub device_read_loop : ℕ → ℕ → Text → S → Option (Result Text × S)
  device_read_loop zero n buf s = none
  device_read_loop (suc fuel) n buf s = elim (is_open s && ltb (length buf) n) [
    | false ↦ some (ok buf, s)
    | true ↦ elim (read (n - length buf) s).0 [
      | ok bytes ↦ device_read_loop fuel n (buf ++ bytes) (read (n - length buf) s).1
      | err e ↦ some (err e, (read (n - length buf) s).1)
    ]
  ]

  unfoldable pub device_read : ℕ → S → Option (Result Text × S)
  unfolding device_read_loop
  device_read n s = device_read_loop (n + 2) n [] s

-- `write(s, n)`
pub device_write : {S : Type 0} → Duplex S → Text → S → Result ℕ × S
device_write d bytes s = elim (d.write bytes s).0 [
  | err e ↦ (err e, (d.write bytes s).1)
  | ok _ ↦ (ok (length bytes), (d.write bytes s).1)
]

-- `std::ios_base::openmode`, as far as `close` tells them apart.
pub data Mode : Type 0 where
  mode_in mode_out mode_other : Mode

-- The two flags, and whether the socket was told to close.
pub record SocketDevice : Type 0 where
  pub closed_in : Bool
  pub closed_out : Bool
  pub socket_closed : Bool

-- `close(mode)`
unfoldable pub close : Mode → SocketDevice → SocketDevice
close mode d = record s { socket_closed = s.socket_closed || s.closed_in && s.closed_out }
  where
    s : SocketDevice
    s = elim mode [
      | mode_out ↦ record d { closed_out = true }
      | mode_in ↦ record d { closed_in = true }
      | mode_other ↦ d
    ]
