-- ===== src/SocketDevice/Order.antt =====
-- The bytes of the device's `read` and their order.
use fiberio.Base.{
  Bool, Option, ℕ, zero, suc, ◌+◌, ◌-◌, ◌≡◌, refl, ◌&&◌, [], ◌++◌, ltb, Text, length, Bool-cases,
  inl, inr,
}
use mathlib.Core.List.{append_assoc}
use mathlib.Core.Path.{subst}
use fiberio.Errors.{Result, Result-cases, ok}
use fiberio.Reader.{Reader}
use fiberio.Socket.Order.{Delivered}
use fiberio.SocketDevice.{device_read_loop, device_read}
use fiberio.SocketDevice.Reading.{
  Returned, loop-done, loop-throws, loop-reads, device_read-Returned,
}

-- The device has read what it can, and nothing is lost.
abbrev pub Transferred :
    {S : Type 0} → (S → Bool) → (S → Text) → ℕ → Text → Option (Result Text × S) → Type 0
Transferred is_open coming n t r = Returned is_open n r × Delivered coming t r

module _ {S : Type 0} (r : Reader S) where
  open r use {read, is_open, coming, in_order}

  loop-Delivered :
      (fuel n : ℕ) (buf : Text) (s : S)
      → Delivered coming (buf ++ coming s) (device_read_loop r fuel n buf s)
  unfolding device_read_loop
  loop-Delivered zero n buf s = tt
  loop-Delivered (suc fuel) n buf s = elim (Bool-cases (is_open s && ltb (length buf) n)) [
    | inr z ↦ rw (loop-done r fuel n buf s z) refl
    | inl m ↦ elim (Result-cases (read (n - length buf) s).0) [
      | inr (e, k) ↦ rw (loop-throws r fuel n buf s e m k) tt
      | inl (bytes, k) ↦ rw (loop-reads r fuel n buf bytes s m k) (
          subst
            (λ (t : Text).
              Delivered coming t
                (device_read_loop r fuel n (buf ++ bytes) (read (n - length buf) s).1))
            (joined bytes k) (loop-Delivered fuel n (buf ++ bytes) (read (n - length buf) s).1))
    ]
  ]
    where
      joined :
          (bytes : Text)
          → (read (n - length buf) s).0 ≡ ok bytes
          → (buf ++ bytes) ++ coming (read (n - length buf) s).1 ≡ buf ++ coming s
      joined bytes k =
          rw (in_order (n - length buf) s bytes k)
            (append_assoc buf bytes (coming (read (n - length buf) s).1))

  device_read-Delivered : (n : ℕ) (s : S) → Delivered coming (coming s) (device_read r n s)
  unfolding device_read
  device_read-Delivered n s = loop-Delivered (n + 2) n [] s

  -- The device's `read` always ends. If it does not throw, it returns at most `n` bytes, less only
  -- from a socket that is closed by then, and what it returns, followed by the bytes that are still
  -- to come, is what was to come before.
  pub device_read-Transferred :
      (n : ℕ) (s : S) → Transferred is_open coming n (coming s) (device_read r n s)
  device_read-Transferred n s = (device_read-Returned r n s, device_read-Delivered n s)
