-- ===== src/SocketDevice/Writing.antt =====
-- The device's `write`.
use fiberio.Base.{ℕ, ◌≡◌, refl, ◌++◌, Text, length, take, inl, inr}
use fiberio.Errors.{Error, Result, Result-cases, ok, err}
use fiberio.Duplex.{Duplex}
use fiberio.SocketDevice.{device_write}

-- The count of a `write` that returns is that of all the bytes, which have gone; one that throws has
-- sent the first of them at most.
abbrev Sent : {S : Type 0} → (S → Text) → Text → Text → Result ℕ × S → Type 0
Sent sent t bytes (ok n, s) = (n ≡ length bytes) × (sent s ≡ t ++ bytes)
Sent sent t bytes (err e, s) = (k : ℕ) × (sent s ≡ t ++ take k bytes)

module _ {S : Type 0} (d : Duplex S) where
  open d use {write, sent, sends, sends_first}

  device_write-returns :
      (bytes : Text) (s : S)
      → (write bytes s).0 ≡ ok tt
      → device_write d bytes s ≡ (ok (length bytes), (write bytes s).1)
  unfolding device_write
  device_write-returns bytes s h = rw (h, device_write) refl

  device_write-throws :
      (bytes : Text) (s : S) (e : Error)
      → (write bytes s).0 ≡ err e
      → device_write d bytes s ≡ (err e, (write bytes s).1)
  unfolding device_write
  device_write-throws bytes s e h = rw (h, device_write) refl

  device_write-Sent : (bytes : Text) (s : S) → Sent sent (sent s) bytes (device_write d bytes s)
  device_write-Sent bytes s = elim (Result-cases (write bytes s).0) [
    | inl (_, k) ↦ rw (device_write-returns bytes s k) (refl, sends bytes s k)
    | inr (e, k) ↦ rw (device_write-throws bytes s e k) (sends_first bytes s)
  ]
