-- ===== src/Echo/Client.antt =====
-- What the fibers of examples/fiber_echo_client.cpp have sent and received when they end.
use fiberio.Base.{
  ℕ, zero, suc, ◌+◌, ◌-◌, ◌≡◌, refl, sym, [], ◌++◌, Option, none, some, Text, length, length-append,
  ltb, ltb→lt, arith, Bool-cases, inl, inr, ap, ◌∙◌,
}
use mathlib.Core.List.{append_assoc, append-nil}
use fiberio.Errors.{Result-cases, Error, Result, ok, err}
use fiberio.Duplex.{Duplex}
use fiberio.Socket.{read_exactly_loop, read_exactly}
use fiberio.Socket.Exactly.{Filled, loop-done, loop-throws, loop-reads, read_exactly-Filled}
use fiberio.Socket.Order.{Delivered, read_exactly-Delivered}
use fiberio.Echo.{letter, num_iterations, rounds, run_client}

-- `n` letters.
abbrev pub letters : ℕ → Text
letters zero = []
letters (suc n) = letter ++ letters n

-- The fiber has ended; if it did not throw it has sent `n` letters and received as many bytes.
abbrev pub Answered :
    {S : Type 0} → (S → Text) → (S → Text) → ℕ → S → Option (Result (Unit {0}) × S) → Type 0
Answered coming sent n s none = ⊥
Answered coming sent n s (some (err e, s')) = Unit
Answered coming sent n s (some (ok _, s')) =
    (sent s' ≡ sent s ++ letters n)
    × ((answer : Text) × (length answer ≡ n) × (coming s ≡ answer ++ coming s'))

module _ {S : Type 0} (d : Duplex S) where
  open d use {reader, write, sent, sent_read, sends, coming_write}

  -- Reading sends nothing.
  abbrev Silent : Text → Option (Result Text × S) → Type 0
  Silent t none = Unit
  Silent t (some (_, s)) = sent s ≡ t

  loop-Silent :
      (fuel left : ℕ) (buf : Text) (s : S)
      → Silent (sent s) (read_exactly_loop reader fuel left buf s)
  unfolding read_exactly_loop
  loop-Silent zero left buf s = tt
  loop-Silent (suc fuel) left buf s = elim (Bool-cases (ltb 0 left)) [
    | inr z ↦ rw (loop-done reader fuel left buf s (ground arith)) refl
    | inl m ↦ elim (Result-cases (reader.read left s).0) [
      | inr (e, k) ↦
          rw (loop-throws reader fuel left buf s e (ltb→lt 0 left m) k) (sent_read left s)
      | inl (bytes, k) ↦ rw (loop-reads reader fuel left buf bytes s (ltb→lt 0 left m) k) (
          rw (sent_read left s) at
            (loop-Silent fuel (left - length bytes) (buf ++ bytes) (reader.read left s).1))
    ]
  ]

  read_exactly-Silent : (size : ℕ) (s : S) → Silent (sent s) (read_exactly reader size s)
  unfolding read_exactly
  read_exactly-Silent size s = loop-Silent (size + 2) size [] s

  module _ (close : S → Result (Unit {0}) × S)
      (close_keeps : (s : S)
        → (sent (close s).1 ≡ sent s) × (reader.coming (close s).1 ≡ reader.coming s)) where
    -- `n` rounds once a letter has been sent and its answer read.
    answered :
        (n : ℕ) (s s' : S) (b : Text) (r : Option (Result (Unit {0}) × S))
        → sent s' ≡ sent s ++ letter
        → length b ≡ 1
        → reader.coming s ≡ b ++ reader.coming s'
        → Answered reader.coming sent n s' r
        → Answered reader.coming sent (suc n) s r
    answered n s s' b none p q e a = a
    answered n s s' b (some (err x, u)) p q e a = tt
    answered n s s' b (some (ok _, u)) p q e (sent_u, (rest, count, took)) = (
      sent_u ∙ ap (λ (t : Text). t ++ letters n) p ∙ append_assoc (sent s) letter (letters n),
      (
        b ++ rest,
        omega (arith, length-append b rest),
        e ∙ ap (λ (t : Text). b ++ t) took ∙ sym (append_assoc b rest (reader.coming u)),
      ),
    )

    unanswered :
        (s : S) (r : Result (Unit {0}) × S)
        → (sent r.1 ≡ sent s) × (reader.coming r.1 ≡ reader.coming s)
        → Answered reader.coming sent 0 s (some r)
    unanswered s (err e, u) h = tt
    unanswered s (ok _, u) h = (h.0 ∙ sym (append-nil (sent s)), ([], refl, sym h.1))

    module _ (n : ℕ) (s : S) where
      abbrev written : S
      written = (write letter s).1

      rounds-write_throws :
          (e : Error)
          → (write letter s).0 ≡ err e
          → rounds d close (suc n) s ≡ some (err e, written)
      unfolding rounds
      rounds-write_throws e h = ground arith

      rounds-read_throws :
          (e : Error) (u : S)
          → (write letter s).0 ≡ ok tt
          → read_exactly reader 1 written ≡ some (err e, u)
          → rounds d close (suc n) s ≡ some (err e, u)
      unfolding rounds
      rounds-read_throws e u h k = ground arith

      rounds-read :
          (b : Text) (u : S)
          → (write letter s).0 ≡ ok tt
          → read_exactly reader 1 written ≡ some (ok b, u)
          → rounds d close (suc n) s ≡ rounds d close n u
      unfolding rounds
      rounds-read b u h k = ground arith

      round-Answered :
          (r : Option (Result Text × S))
          → read_exactly reader 1 written ≡ r
          → (write letter s).0 ≡ ok tt
          → Filled 1 r
          → Delivered reader.coming (reader.coming written) r
          → Silent (sent written) r
          → ((u : S) → Answered reader.coming sent n u (rounds d close n u))
          → Answered reader.coming sent (suc n) s (rounds d close (suc n) s)
      round-Answered none e k f v q h = absurd f
      round-Answered (some (err x, u)) e k f v q h = rw (rounds-read_throws x u k e) tt
      round-Answered (some (ok b, u)) e k f v q h = rw (rounds-read b u k e) (
          answered n s u b (rounds d close n u) (q ∙ sends letter s k) f
            (sym (coming_write letter s) ∙ v) (h u))

    pub rounds-Answered : (n : ℕ) (s : S) → Answered reader.coming sent n s (rounds d close n s)
    unfolding rounds
    rounds-Answered zero s = unanswered s (close s) (close_keeps s)
    rounds-Answered (suc n) s = elim (Result-cases (write letter s).0) [
      | inr (e, k) ↦ rw (rounds-write_throws n s e k) tt
      | inl (_, k) ↦
          round-Answered n s (read_exactly reader 1 (write letter s).1) refl k
            (read_exactly-Filled reader 1 (write letter s).1)
            (read_exactly-Delivered reader 1 (write letter s).1)
            (read_exactly-Silent 1 (write letter s).1) (rounds-Answered n)
    ]

    -- A fiber of the echo client always ends. If it does not throw, it has sent exactly
    -- `num_iterations` letters and has received as many bytes, the next ones that were to come. Its
    -- `close` is taken to send and to read nothing.
    pub run_client-Answered :
        (s : S) → Answered reader.coming sent num_iterations s (run_client d close s)
    unfolding run_client
    run_client-Answered s = rounds-Answered num_iterations s
