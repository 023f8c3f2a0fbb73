-- ===== src/Socket.antt =====
-- src/socket.cpp: the reading functions of `socket`, over its implementation's `read`. Of the two branches
-- of `read_string` and `read_string_exactly` the first, for C++17, is taken; `shrink_to_fit` frees memory
-- only.
pub mod Exactly
pub mod Order
pub mod Strings
use fiberio.Base.{
  ℕ, zero, suc, ◌+◌, ◌-◌, ◌*◌, Bool, true, false, List, [], ◌∷◌, ◌++◌, Option, none, some, ltb,
  ◌==◌, if◌then◌else◌, Text, length, take, drop,
}
use fiberio.Errors.{Error, Result, ok, err}
use fiberio.Reader.{Reader}

-- `std::string(count, '\0')`
abbrev pub zeros : ℕ → Text
zeros zero = []
zeros (suc count) = 0 ∷ zeros count

-- A buffer once these bytes have been written to its beginning.
abbrev pub put_into : Text → Text → Text
put_into buf bytes = bytes ++ drop (length bytes) buf

module _ {S : Type 0} (r : Reader S) where
  open r use {read}

  -- The loop of `read_exactly`: `bytes_left`, and what stands in the buffer so far. `none` means that
  -- the fuel ran out.
  unfoldable pub read_exactly_loop : ℕ → ℕ → Text → S → Option (Result Text × S)
  read_exactly_loop zero bytes_left buf s = none
  read_exactly_loop (suc fuel) bytes_left buf s = elim (ltb 0 bytes_left) [
    | false ↦ some (ok buf, s)
    | true ↦ elim (read bytes_left s).0 [
      | ok bytes ↦
          read_exactly_loop fuel (bytes_left - length bytes) (buf ++ bytes) (read bytes_left s).1
      | err e ↦ some (err e, (read bytes_left s).1)
    ]
  ]

  -- Each round but the last two reads at least a byte.
  unfoldable pub read_exactly : ℕ → S → Option (Result Text × S)
  unfolding read_exactly_loop
  read_exactly size s = read_exactly_loop (size + 2) size [] s

  -- `read_string(count)`: a buffer of zeros that `read` fills, cut off behind what was read.
  unfoldable pub read_string : ℕ → S → Result Text × S
  read_string count s =
      let buf = zeros count in
      let (bytes_read, s') = read (length buf) s in
      (
        elim bytes_read [
          | err e ↦ err e
          | ok bytes ↦ ok (
              if ltb (length bytes) count
              then take (length bytes) (put_into buf bytes)
              else put_into buf bytes)
        ],
        s',
      )

  -- `read_string_exactly(count)`: the whole buffer that `read_exactly` fills.
  unfoldable pub read_string_exactly : ℕ → S → Option (Result Text × S)
  read_string_exactly count s =
      let buf = zeros count in
      elim (read_exactly (length buf) s) [
        | none ↦ none
        | some (bytes, s') ↦
            some (elim bytes [ err e ↦ err e | ok bytes' ↦ ok (put_into buf bytes') ], s')
      ]
