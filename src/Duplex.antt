-- ===== src/Duplex.antt =====
-- What the users of a connected socket need of its `read` and `write`: the contract between
-- src/socket_impl.cpp and the programs of examples/.
use fiberio.Base.{ℕ, ◌≡◌, false, ◌++◌, Text, take}
use fiberio.Errors.{socket_closed_error, Error, Result, ok, err}
use fiberio.Reader.{Reader}

-- `write bytes s` is what `impl_->write(data, len)` comes to, and the connection after it; `sent s` is
-- all that has gone to the other side.
pub record Duplex (S : Type 0) : Type 0 where
  pub reader : Reader S
  pub write : Text → S → Result (Unit {0}) × S
  pub sent : S → Text
  -- A call that throws takes no bytes, and no `read` sends any.
  pub kept :
      (size : ℕ) (s : S) (e : Error)
      → (reader.read size s).0 ≡ err e
      → reader.coming (reader.read size s).1 ≡ reader.coming s
  pub sent_read : (size : ℕ) (s : S) → sent (reader.read size s).1 ≡ sent s
  -- A `write` that returns has sent all of its bytes, and any has sent the first of them.
  pub sends :
      (bytes : Text) (s : S) → (write bytes s).0 ≡ ok tt → sent (write bytes s).1 ≡ sent s ++ bytes
  pub sends_first :
      (bytes : Text) (s : S) → (k : ℕ) × (sent (write bytes s).1 ≡ sent s ++ take k bytes)
  -- `write` takes no bytes that come, and neither opens nor closes the socket.
  pub coming_write : (bytes : Text) (s : S) → reader.coming (write bytes s).1 ≡ reader.coming s
  pub open_write : (bytes : Text) (s : S) → reader.is_open (write bytes s).1 ≡ reader.is_open s
  -- Writing to a closed socket throws.
  pub refuses :
      (bytes : Text) (s : S)
      → reader.is_open s ≡ false
      → write bytes s ≡ (err socket_closed_error, s)
