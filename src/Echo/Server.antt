-- ===== src/Echo/Server.antt =====
-- How the fiber of examples/fiber_echo_server.cpp ends, and what it has sent by then.
use fiberio.Base.{
  ℕ, zero, suc, ◌+◌, ◌≤◌, ◌<◌, ◌≡◌, refl, sym, true, [], ◌∷◌, ◌++◌, Option, none, some, Text,
  length, length-append, take, drop, length-drop, take-append-drop, arith, Bool-cases, inl, inr, ap,
  ◌∙◌,
}
use mathlib.Core.List.{append_assoc}
use fiberio.Errors.{Result-cases, Error, Result, ok, err}
use fiberio.Duplex.{Duplex}
use fiberio.Echo.{buffer_size, serve_loop, serve}

-- The fiber has ended by an exception, having sent `first` and then what came, in order, but for at
-- most one buffer that is lost; `t` was to come at first.
abbrev pub Echoed :
    {S : Type 0} → (S → Text) → (S → Text) → Text → Text → Option (Result (Unit {0}) × S) → Type 0
Echoed coming sent first t none = ⊥
Echoed coming sent first t (some (ok _, s)) = ⊥
Echoed coming sent first t (some (err e, s)) =
    (lost : Text) × (length lost ≤ buffer_size) × (sent s ++ (lost ++ coming s) ≡ first ++ t)

module _ {S : Type 0} (d : Duplex S) where
  open d use {
    reader, write, sent, kept, sent_read, sends, sends_first, coming_write, open_write, refuses,
  }

  -- The connection after a read of the loop, and after the write of what was read.
  abbrev after_read : S → S
  after_read s = (reader.read buffer_size s).1

  abbrev after_write : Text → S → S
  after_write bytes s = (write bytes (after_read s)).1

  module _ (fuel : ℕ) (s : S) (is_open : reader.is_open s ≡ true) where
    loop-read_throws :
        (e : Error)
        → (reader.read buffer_size s).0 ≡ err e
        → serve_loop d (suc fuel) s ≡ some (err e, after_read s)
    unfolding serve_loop
    loop-read_throws e h = ground arith

    loop-write_throws :
        (bytes : Text) (e : Error)
        → (reader.read buffer_size s).0 ≡ ok bytes
        → (write bytes (after_read s)).0 ≡ err e
        → serve_loop d (suc fuel) s ≡ some (err e, after_write bytes s)
    unfolding serve_loop
    loop-write_throws bytes e h k = ground arith

    loop-echoes :
        (bytes : Text)
        → (reader.read buffer_size s).0 ≡ ok bytes
        → (write bytes (after_read s)).0 ≡ ok tt
        → serve_loop d (suc fuel) s ≡ serve_loop d fuel (after_write bytes s)
    unfolding serve_loop
    loop-echoes bytes h k = ground arith

  -- A write that returns has been on an open socket.
  write-open : (bytes : Text) (s : S) → (write bytes s).0 ≡ ok tt → reader.is_open s ≡ true
  write-open bytes s h = elim (Bool-cases (reader.is_open s)) [
    | inl o ↦ o
    | inr c ↦ absurd (cc (h, ap (λ (p : Result (Unit {0}) × S). p.0) (refuses bytes s c)))
  ]

  -- What a round with a write moves from the bytes to come to those sent.
  round :
      (bytes : Text) (s : S)
      → (reader.read buffer_size s).0 ≡ ok bytes
      → (write bytes (after_read s)).0 ≡ ok tt
      → sent (after_write bytes s) ++ reader.coming (after_write bytes s)
        ≡ sent s ++ reader.coming s
  round bytes s h k =
      rw (sends bytes (after_read s) k, coming_write bytes (after_read s), sent_read buffer_size s)
        (append_assoc (sent s) bytes (reader.coming (after_read s))
          ∙ ap (λ (l : Text). sent s ++ l) (sym (reader.in_order buffer_size s bytes h)))

  read_throws-Echoed :
      (first t : Text) (s : S) (e : Error)
      → sent s ++ reader.coming s ≡ first ++ t
      → (reader.read buffer_size s).0 ≡ err e
      → Echoed reader.coming sent first t (some (err e, after_read s))
  read_throws-Echoed first t s e v h =
      ([], omega arith, rw (sent_read buffer_size s, kept buffer_size s e h) v)

  write_throws-Echoed :
      (first t bytes : Text) (s : S) (e : Error)
      → sent s ++ reader.coming s ≡ first ++ t
      → (reader.read buffer_size s).0 ≡ ok bytes
      → Echoed reader.coming sent first t (some (err e, after_write bytes s))
  write_throws-Echoed first t bytes s e v h =
      let (k, sent_k) = sends_first bytes (after_read s) in
      (
        drop k bytes,
        omega (arith, length-drop k bytes, reader.fits buffer_size s bytes h),
        rw (sent_k, coming_write bytes (after_read s), sent_read buffer_size s)
            (append_assoc (sent s) (take k bytes) (drop k bytes ++ reader.coming (after_read s))
              ∙ ap (λ (l : Text). sent s ++ l) (whole k)
              ∙ v),
      )
    where
      whole :
          (k : ℕ) → take k bytes ++ (drop k bytes ++ reader.coming (after_read s)) ≡ reader.coming s
      whole k =
          sym (append_assoc (take k bytes) (drop k bytes) (reader.coming (after_read s)))
          ∙ ap (λ (l : Text). l ++ reader.coming (after_read s)) (take-append-drop k bytes)
          ∙ sym (reader.in_order buffer_size s bytes h)

  -- A round that goes on has read something.
  fewer :
      (bytes : Text) (s : S)
      → (reader.read buffer_size s).0 ≡ ok bytes
      → (write bytes (after_read s)).0 ≡ ok tt
      → length (reader.coming (after_write bytes s)) < length (reader.coming s)
  fewer [] s h k = absurd (cc (write-open [] (after_read s) k, reader.ended buffer_size s h))
  fewer (b ∷ bytes) s h k = omega (
    arith,
    ap length (coming_write (b ∷ bytes) (after_read s)),
    ap length (reader.in_order buffer_size s (b ∷ bytes) h),
    length-append (b ∷ bytes) (reader.coming (after_read s)),
  )

  loop-Echoed :
      (fuel : ℕ) (first t : Text) (s : S)
      → length (reader.coming s) < fuel
      → reader.is_open s ≡ true
      → sent s ++ reader.coming s ≡ first ++ t
      → Echoed reader.coming sent first t (serve_loop d fuel s)
  loop-Echoed zero first t s h o v = absurd (omega arith)
  loop-Echoed (suc fuel) first t s h o v = elim (Result-cases (reader.read buffer_size s).0) [
    | inr (e, k) ↦ rw (loop-read_throws fuel s o e k) (read_throws-Echoed first t s e v k)
    | inl (bytes, k) ↦ elim (Result-cases (write bytes (after_read s)).0) [
      | inr (e, m) ↦
          rw (loop-write_throws fuel s o bytes e k m) (write_throws-Echoed first t bytes s e v k)
      | inl (_, m) ↦ rw (loop-echoes fuel s o bytes k m) (
          loop-Echoed fuel first t (after_write bytes s) (omega (arith, fewer bytes s k m))
            (open_write bytes (after_read s) ∙ write-open bytes (after_read s) m)
            (round bytes s k m ∙ v))
    ]
  ]

  -- A fiber of the echo server that is given an open socket always ends, and always by an
  -- exception. What it has sent by then, followed by at most one buffer of bytes that are lost and
  -- by the bytes that are still to come, is what had been sent before followed by what was to come:
  -- nothing is repeated or out of order.
  pub serve-Echoed :
      (s : S)
      → reader.is_open s ≡ true
      → Echoed reader.coming sent (sent s) (reader.coming s) (serve d s)
  unfolding serve
  serve-Echoed s o =
      loop-Echoed (length (reader.coming s) + 1) (sent s) (reader.coming s) s (omega arith) o refl
