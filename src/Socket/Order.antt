-- ===== src/Socket/Order.antt =====
-- The bytes of `read_exactly` of src/socket.cpp and their order.
use fiberio.Base.{
  ℕ, zero, suc, ◌+◌, ◌-◌, ◌≡◌, refl, [], ◌++◌, Option, some, ltb, Text, length, arith, Bool-cases,
  inl, inr, ltb→lt,
}
use mathlib.Core.List.{append_assoc}
use mathlib.Core.Path.{subst}
use fiberio.Errors.{Result-cases, Result, ok}
use fiberio.Reader.{Reader}
use fiberio.Socket.{read_exactly_loop, read_exactly}
use fiberio.Socket.Exactly.{loop-done, loop-throws, loop-reads}

-- What a call returned and what is still to come make up `t`.
abbrev pub Delivered : {S : Type 0} → (S → Text) → Text → Option (Result Text × S) → Type 0
Delivered coming t (some (ok bytes, s)) = t ≡ bytes ++ coming s
Delivered coming t _ = Unit

module _ {S : Type 0} (r : Reader S) where
  open r use {read, coming, in_order}

  loop-Delivered :
      (fuel left : ℕ) (buf : Text) (s : S)
      → Delivered coming (buf ++ coming s) (read_exactly_loop r fuel left buf s)
  unfolding read_exactly_loop
  loop-Delivered zero left buf s = tt
  loop-Delivered (suc fuel) left buf s = elim (Bool-cases (ltb 0 left)) [
    | inr z ↦ rw (loop-done r fuel left buf s (ground arith)) refl
    | inl m ↦ elim (Result-cases (read left s).0) [
      | inr (e, k) ↦ rw (loop-throws r fuel left buf s e (ltb→lt 0 left m) k) tt
      | inl (bytes, k) ↦ rw (loop-reads r fuel left buf bytes s (ltb→lt 0 left m) k) (
          subst
            (λ (t : Text).
              Delivered coming t
                (read_exactly_loop r fuel (left - length bytes) (buf ++ bytes) (read left s).1))
            (joined bytes k)
            (loop-Delivered fuel (left - length bytes) (buf ++ bytes) (read left s).1))
    ]
  ]
    where
      joined :
          (bytes : Text)
          → (read left s).0 ≡ ok bytes
          → (buf ++ bytes) ++ coming (read left s).1 ≡ buf ++ coming s
      joined bytes k =
          rw (in_order left s bytes k) (append_assoc buf bytes (coming (read left s).1))

  -- What `read_exactly` returns if it does not throw, followed by the bytes that are still to come,
  -- is what was to come before: no byte is lost, repeated or out of order.
  pub read_exactly-Delivered :
      (size : ℕ) (s : S) → Delivered coming (coming s) (read_exactly r size s)
  unfolding read_exactly
  read_exactly-Delivered size s = loop-Delivered (size + 2) size [] s
