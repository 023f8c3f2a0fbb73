-- ===== src/Socket/Strings.antt =====
-- `read_string` and `read_string_exactly` of src/socket.cpp, without their buffers.
use fiberio.Base.{
  ℕ, zero, suc, ◌≤◌, ◌≡◌, refl, ap, ◌∙◌, [], ◌∷◌, ◌++◌, Option, none, some, ltb, if◌then◌else◌,
  Text, length, take, drop, arith, Bool-cases, inl, inr,
}
use mathlib.Core.List.{append-nil}
use fiberio.Errors.{Result, ok, err}
use fiberio.Reader.{Reader}
use fiberio.Socket.{zeros, put_into, read_exactly, read_string, read_string_exactly}
use fiberio.Socket.Exactly.{Filled, read_exactly-Filled}

length-zeros : (n : ℕ) → length (zeros n) ≡ n
length-zeros zero = refl
length-zeros (suc n) = ap suc (length-zeros n)

take-append : (xs ys : Text) → take (length xs) (xs ++ ys) ≡ xs
take-append [] ys = refl
take-append (x ∷ xs) ys = ap (λ (t : Text). x ∷ t) (take-append xs ys)

drop-all : (n : ℕ) (xs : Text) → length xs ≤ n → drop n xs ≡ []
drop-all zero [] h = refl
drop-all zero (x ∷ xs) h = absurd (omega (arith, h))
drop-all (suc n) [] h = refl
drop-all (suc n) (x ∷ xs) h = drop-all n xs (omega (arith, h))

-- A buffer that is full holds nothing else.
put_into-full : (n : ℕ) (bytes : Text) → n ≤ length bytes → put_into (zeros n) bytes ≡ bytes
put_into-full n bytes h =
    ap (λ (t : Text). bytes ++ t)
      (drop-all (length bytes) (zeros n) (omega (arith, h, length-zeros n)))
    ∙ append-nil bytes

module _ {S : Type 0} (r : Reader S) where
  open r use {read, is_open, coming, in_order, fits}

  -- What `read_string` makes of the buffer.
  cut :
      (n : ℕ) (bytes : Text)
      → (if ltb (length bytes) n
          then take (length bytes) (put_into (zeros n) bytes)
          else put_into (zeros n) bytes)
        ≡ bytes
  cut n bytes = elim (Bool-cases (ltb (length bytes) n)) [
    | inl l ↦ rw l (take-append bytes (drop (length bytes) (zeros n)))
    | inr m ↦ rw m (put_into-full n bytes (ground arith))
  ]

  -- What `read_string` makes of what `read` came to.
  cut_result :
      (n : ℕ) (p : Result Text × S)
      → ◌≡◌ {A = Result Text × S}
          (
            elim p.0 [
              | err e ↦ err e
              | ok bytes ↦ ok (
                  if ltb (length bytes) n
                  then take (length bytes) (put_into (zeros n) bytes)
                  else put_into (zeros n) bytes)
            ],
            p.1,
          )
          p
  cut_result n (err e, s) = refl
  cut_result n (ok bytes, s) = ap (λ (t : Text). (ok t, s)) (cut n bytes)

  read_string-eq : (n : ℕ) (s : S) → read_string r n s ≡ read n s
  unfolding read_string
  read_string-eq n s = rw (length-zeros n) (cut_result n (read n s))

  filled_result :
      (n : ℕ) (o : Option (Result Text × S))
      → Filled n o
      → ◌≡◌ {A = Option (Result Text × S)}
          (elim o [
            | none ↦ none
            | some (bytes, s') ↦
                some (elim bytes [ err e ↦ err e | ok bytes' ↦ ok (put_into (zeros n) bytes') ], s')
          ])
          o
  filled_result n none f = absurd f
  filled_result n (some (err e, s)) f = refl
  filled_result n (some (ok bytes, s)) f =
      ap (λ (t : Text). some (ok t, s)) (put_into-full n bytes (omega (arith, f)))

  read_string_exactly-eq : (n : ℕ) (s : S) → read_string_exactly r n s ≡ read_exactly r n s
  unfolding read_string_exactly
  read_string_exactly-eq n s =
      rw (read_string_exactly, length-zeros n)
        (filled_result n (read_exactly r n s) (read_exactly-Filled r n s))

  -- `read_string` returns exactly the bytes that one `read` of the socket gives, or throws what
  -- that throws, and `read_string_exactly` those of `read_exactly`: nothing of the buffer of zeros
  -- that they start from is left in the string, and nothing is cut off.
  pub read_string-read :
      (n : ℕ) (s : S)
      → (read_string r n s ≡ read n s) × (read_string_exactly r n s ≡ read_exactly r n s)
  read_string-read n s = (read_string-eq n s, read_string_exactly-eq n s)
