-- ===== src/SocketDevice/Reading.antt =====
-- What `socket_device::read` returns, and what `close` leaves.
use fiberio.Base.{
  ℕ, zero, suc, ◌+◌, ◌-◌, ◌≤◌, ◌<◌, ◌≡◌, refl, Bool, true, false, ◌&&◌, ◌||◌, List, [], ◌∷◌, ◌++◌,
  Option, none, some, ltb, Text, length, length-append, arith, Bool-cases, inl, inr, ◌⊎◌,
}
use fiberio.Errors.{Result-cases, Error, Result, ok, err}
use fiberio.Reader.{Reader}
use fiberio.SocketDevice.{
  device_read_loop, device_read, Mode, mode_in, mode_out, mode_other, SocketDevice, close,
}

-- The call ended; if it did not throw it returned at most `n` bytes, and less only from a socket that
-- is closed now.
abbrev pub Returned : {S : Type 0} → (S → Bool) → ℕ → Option (Result Text × S) → Type 0
Returned is_open n none = ⊥
Returned is_open n (some (ok bytes, s)) =
    (length bytes ≤ n) × ((length bytes ≡ n) ⊎ (is_open s ≡ false))
Returned is_open n (some (err e, s)) = Unit

module _ {S : Type 0} (r : Reader S) where
  open r use {read, is_open, fits, ended}

  pub loop-done :
      (fuel n : ℕ) (buf : Text) (s : S)
      → (is_open s && ltb (length buf) n) ≡ false
      → device_read_loop r (suc fuel) n buf s ≡ some (ok buf, s)
  unfolding device_read_loop
  loop-done fuel n buf s h = rw (h, device_read_loop) refl

  pub loop-throws :
      (fuel n : ℕ) (buf : Text) (s : S) (e : Error)
      → (is_open s && ltb (length buf) n) ≡ true
      → (read (n - length buf) s).0 ≡ err e
      → device_read_loop r (suc fuel) n buf s ≡ some (err e, (read (n - length buf) s).1)
  unfolding device_read_loop
  loop-throws fuel n buf s e h k = rw (h, k, device_read_loop) refl

  pub loop-reads :
      (fuel n : ℕ) (buf bytes : Text) (s : S)
      → (is_open s && ltb (length buf) n) ≡ true
      → (read (n - length buf) s).0 ≡ ok bytes
      → device_read_loop r (suc fuel) n buf s
        ≡ device_read_loop r fuel n (buf ++ bytes) (read (n - length buf) s).1
  unfolding device_read_loop
  loop-reads fuel n buf bytes s h k = rw (h, k, device_read_loop) refl

  -- Two rounds more than bytes are missing, or one on a closed socket.
  abbrev Enough : ℕ → ℕ → Text → S → Type 0
  Enough fuel n buf s = (n + 2 ≤ fuel + length buf) ⊎ ((is_open s ≡ false) × (1 ≤ fuel))

  stops :
      (n : ℕ) (buf : Text) (s : S)
      → length buf ≤ n
      → (is_open s && ltb (length buf) n) ≡ false
      → (length buf ≡ n) ⊎ (is_open s ≡ false)
  stops n buf s l h = ground arith

  Enough-read :
      (fuel n : ℕ) (buf bytes : Text) (s : S)
      → length buf < n
      → (read (n - length buf) s).0 ≡ ok bytes
      → is_open s ≡ true
      → Enough (suc fuel) n buf s
      → Enough fuel n (buf ++ bytes) (read (n - length buf) s).1
  Enough-read fuel n buf [] s l e o (inl h) = inr (ended (n - length buf) s e, omega arith)
  Enough-read fuel n buf (b ∷ bytes) s l e o (inl h) =
      inl (omega (arith, length-append buf (b ∷ bytes)))
  Enough-read fuel n buf bytes s l e o (inr h) = absurd (cc (o, h.0))

  loop-Returned :
      (fuel n : ℕ) (buf : Text) (s : S)
      → length buf ≤ n
      → Enough fuel n buf s
      → Returned is_open n (device_read_loop r fuel n buf s)
  loop-Returned zero n buf s l (inl h) = absurd (omega arith)
  loop-Returned zero n buf s l (inr h) = absurd (omega (arith, h.1))
  loop-Returned (suc fuel) n buf s l h = elim (Bool-cases (is_open s && ltb (length buf) n)) [
    | inr z ↦ rw (loop-done fuel n buf s z) (l, stops n buf s l z)
    | inl m ↦ elim (Result-cases (read (n - length buf) s).0) [
      | inr (e, k) ↦ rw (loop-throws fuel n buf s e m k) tt
      | inl (bytes, k) ↦ rw (loop-reads fuel n buf bytes s m k) (
          loop-Returned fuel n (buf ++ bytes) _
            (omega (arith, length-append buf bytes, fits (n - length buf) s bytes k, short m))
            (Enough-read fuel n buf bytes s (short m) k (opened m) h))
    ]
  ]
    where
      short : (is_open s && ltb (length buf) n) ≡ true → length buf < n
      short m = ground arith

      opened : (is_open s && ltb (length buf) n) ≡ true → is_open s ≡ true
      opened m = ground arith

  -- The device's `read` always ends. If it does not throw, it returns at most `n` bytes, and less
  -- only from a socket that is closed by then.
  pub device_read-Returned : (n : ℕ) (s : S) → Returned is_open n (device_read r n s)
  unfolding device_read
  device_read-Returned n s = loop-Returned (n + 2) n [] s (omega arith) (inl (omega arith))

abbrev pub close_all : List Mode → SocketDevice → SocketDevice
close_all [] d = d
close_all (m ∷ ms) d = close_all ms (close m d)

abbrev pub names_in : List Mode → Bool
names_in [] = false
names_in (mode_in ∷ ms) = true
names_in (m ∷ ms) = names_in ms

abbrev pub names_out : List Mode → Bool
names_out [] = false
names_out (mode_out ∷ ms) = true
names_out (m ∷ ms) = names_out ms

abbrev pub fresh : SocketDevice
fresh = record { closed_in = false; closed_out = false; socket_closed = false }

close_all-flags :
    (ms : List Mode) (d : SocketDevice)
    → d.socket_closed ≡ (d.closed_in && d.closed_out)
    → (close_all ms d).socket_closed
      ≡ ((d.closed_in || names_in ms) && (d.closed_out || names_out ms))
unfolding close
close_all-flags [] d h = ground arith
close_all-flags (mode_in ∷ ms) d h = ground (arith, close_all-flags ms (close mode_in d))
close_all-flags (mode_out ∷ ms) d h = ground (arith, close_all-flags ms (close mode_out d))
close_all-flags (mode_other ∷ ms) d h = ground (arith, close_all-flags ms (close mode_other d))

-- Whatever a new device is told to close and in whatever order, it has closed the socket exactly if
-- both directions were among it.
close_all-fresh :
    (ms : List Mode) → (close_all ms fresh).socket_closed ≡ (names_in ms && names_out ms)
close_all-fresh ms = close_all-flags ms fresh refl
