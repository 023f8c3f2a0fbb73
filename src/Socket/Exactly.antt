-- ===== src/Socket/Exactly.antt =====
-- How `read_exactly` of src/socket.cpp ends.
use fiberio.Base.{
  ℕ, zero, suc, ◌+◌, ◌-◌, ◌≤◌, ◌<◌, ◌≡◌, false, [], ◌∷◌, ◌++◌, Option, none, some, ltb, Text,
  length, length-append, arith, Bool-cases, inl, inr, ◌⊎◌, ap, ltb→lt,
}
use mathlib.Core.Path.{subst}
use native.Mathlib.Nat.{zero-add}
use fiberio.Errors.{Result-cases, Error, Result, ok, err}
use fiberio.Reader.{Reader}
use fiberio.Socket.{read_exactly_loop, read_exactly}

-- The call ended, and if it did not throw it filled a buffer of `size` bytes.
abbrev pub Filled : {S : Type 0} → ℕ → Option (Result Text × S) → Type 0
Filled size none = ⊥
Filled size (some (ok bytes, s)) = length bytes ≡ size
Filled size (some (err e, s)) = Unit

module _ {S : Type 0} (r : Reader S) where
  open r use {read, is_open, fits, ended, refused}

  pub loop-done :
      (fuel left : ℕ) (buf : Text) (s : S)
      → left ≡ 0
      → read_exactly_loop r (suc fuel) left buf s ≡ some (ok buf, s)
  unfolding read_exactly_loop
  loop-done fuel left buf s h = ground arith

  pub loop-throws :
      (fuel left : ℕ) (buf : Text) (s : S) (e : Error)
      → 0 < left
      → (read left s).0 ≡ err e
      → read_exactly_loop r (suc fuel) left buf s ≡ some (err e, (read left s).1)
  unfolding read_exactly_loop
  loop-throws fuel left buf s e h k = ground arith

  pub loop-reads :
      (fuel left : ℕ) (buf bytes : Text) (s : S)
      → 0 < left
      → (read left s).0 ≡ ok bytes
      → read_exactly_loop r (suc fuel) left buf s
        ≡ read_exactly_loop r fuel (left - length bytes) (buf ++ bytes) (read left s).1
  unfolding read_exactly_loop
  loop-reads fuel left buf bytes s h k = ground arith

  -- What makes the rounds enough: two more than bytes left, or one on a closed socket.
  abbrev Enough : ℕ → ℕ → S → Type 0
  Enough fuel left s = (left + 2 ≤ fuel) ⊎ ((is_open s ≡ false) × (1 ≤ fuel))

  Enough-read :
      (fuel left : ℕ) (bytes : Text) (s : S)
      → (read left s).0 ≡ ok bytes
      → Enough (suc fuel) left s
      → Enough fuel (left - length bytes) (read left s).1
  Enough-read fuel left [] s e (inl h) = inr (ended left s e, omega arith)
  Enough-read fuel left (b ∷ bytes) s e (inl h) = inl (omega (arith, fits left s (b ∷ bytes) e))
  Enough-read fuel left bytes s e (inr h) =
      absurd (cc (e, ap (λ (p : Result Text × S). p.0) (refused left s h.0)))

  loop-Filled :
      (fuel left : ℕ) (buf : Text) (s : S)
      → Enough fuel left s
      → Filled (length buf + left) (read_exactly_loop r fuel left buf s)
  loop-Filled zero left buf s (inl h) = absurd (omega arith)
  loop-Filled zero left buf s (inr h) = absurd (omega (arith, h.1))
  loop-Filled (suc fuel) left buf s h = elim (Bool-cases (ltb 0 left)) [
    | inr z ↦ rw (loop-done fuel left buf s (ground arith)) (ground arith)
    | inl m ↦ elim (Result-cases (read left s).0) [
      | inr (e, k) ↦ rw (loop-throws fuel left buf s e (ltb→lt 0 left m) k) tt
      | inl (bytes, k) ↦ rw (loop-reads fuel left buf bytes s (ltb→lt 0 left m) k) (
          subst
            (λ (n : ℕ).
              Filled n
                (read_exactly_loop r fuel (left - length bytes) (buf ++ bytes) (read left s).1))
            (total bytes k)
            (loop-Filled fuel (left - length bytes) (buf ++ bytes) (read left s).1
              (Enough-read fuel left bytes s k h)))
    ]
  ]
    where
      total :
          (bytes : Text)
          → (read left s).0 ≡ ok bytes
          → length (buf ++ bytes) + (left - length bytes) ≡ length buf + left
      total bytes k = omega (arith, length-append buf bytes, fits left s bytes k)

  -- `read_exactly` always ends, and either throws or fills the whole buffer: it never returns less.
  pub read_exactly-Filled : (size : ℕ) (s : S) → Filled size (read_exactly r size s)
  unfolding read_exactly
  read_exactly-Filled size s = rw zero-add at (loop-Filled (size + 2) size [] s (inl (omega arith)))
