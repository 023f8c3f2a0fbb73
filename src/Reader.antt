-- ===== src/Reader.antt =====
-- What the users of a socket need of its `read`: the contract between src/socket_impl.cpp and the
-- loops of src/socket.cpp and include/fiberio/iostream.hpp.
use fiberio.Base.{◌++◌, ℕ, ◌≤◌, ◌≡◌, Bool, false, [], Text, length}
use fiberio.Errors.{socket_closed_error, Result, ok, err}

-- `read size s` is the text that `impl_->read(buf, size)` puts into the buffer, or what it throws, and
-- the state of the connection after it.
pub record Reader (S : Type 0) : Type 0 where
  pub read : ℕ → S → Result Text × S
  pub is_open : S → Bool
  -- No more than the buffer holds.
  pub fits : (size : ℕ) (s : S) (bytes : Text) → (read size s).0 ≡ ok bytes → length bytes ≤ size
  -- No bytes are the end of the stream, and that closes the socket.
  pub ended : (size : ℕ) (s : S) → (read size s).0 ≡ ok [] → is_open (read size s).1 ≡ false
  -- Reading from a closed socket throws.
  pub refused : (size : ℕ) (s : S) → is_open s ≡ false → read size s ≡ (err socket_closed_error, s)
  -- The bytes that the connection has still to deliver; a `read` takes them from the front.
  pub coming : S → Text
  pub in_order :
      (size : ℕ) (s : S) (bytes : Text)
      → (read size s).0 ≡ ok bytes
      → coming s ≡ bytes ++ coming (read size s).1
