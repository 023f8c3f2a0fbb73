-- ===== src/Tests/Stream.antt =====
-- A connection that delivers a text and then ends.
use fiberio.Base.{
  ◌++◌, ap, refl, ℕ, zero, suc, ◌≤◌, ◌≡◌, Bool, true, false, [], ◌∷◌, Text, length, arith, take,
  drop,
}
use fiberio.Errors.{socket_closed_error, io_error, Result, ok, err}
use fiberio.Reader.{Reader}

pub record Stream : Type 0 where
  pub coming : Text
  pub up : Bool

pub read_stream : ℕ → Stream → Result Text × Stream
read_stream size s = elim s.up [
  | false ↦ (err socket_closed_error, s)
  | true ↦ elim size [
    | zero ↦ (err (io_error []), s)
    | suc n ↦ elim s.coming [
      | [] ↦ (ok [], record s { up = false })
      | c ∷ rest ↦ (ok (c ∷ take n rest), record s { coming = drop n rest })
    ]
  ]
]

length-take-le : (n : ℕ) (t : Text) → length (take n t) ≤ n
length-take-le zero t = omega arith
length-take-le (suc n) [] = omega arith
length-take-le (suc n) (c ∷ t) = omega (arith, length-take-le n t)

fits-lem :
    (size : ℕ) (s : Stream) (bytes : Text) → (read_stream size s).0 ≡ ok bytes → length bytes ≤ size
unfolding read_stream
fits-lem size s bytes e = fits size s.up s.coming e
  where
    fits :
        (size : ℕ) (up : Bool) (t : Text)
        → (read_stream size (record { coming = t; up = up })).0 ≡ ok bytes
        → length bytes ≤ size
    fits size false t e = ground arith
    fits zero true t e = ground arith
    fits (suc n) true [] e = ground arith
    fits (suc n) true (c ∷ t) e = ground (arith, length-take-le n t)

ended-lem :
    (size : ℕ) (s : Stream) → (read_stream size s).0 ≡ ok [] → (read_stream size s).1.up ≡ false
unfolding read_stream
ended-lem size s e = ground arith

refused-lem :
    (size : ℕ) (s : Stream) → s.up ≡ false → read_stream size s ≡ (err socket_closed_error, s)
unfolding read_stream
refused-lem size s e = ground arith

take-drop : (n : ℕ) (t : Text) → t ≡ take n t ++ drop n t
take-drop zero t = refl
take-drop (suc n) [] = refl
take-drop (suc n) (c ∷ t) = ap (λ (r : Text). c ∷ r) (take-drop n t)

in_order-lem :
    (size : ℕ) (s : Stream) (bytes : Text)
    → (read_stream size s).0 ≡ ok bytes
    → s.coming ≡ bytes ++ (read_stream size s).1.coming
unfolding read_stream
in_order-lem size s bytes e = in_order size s.up s.coming e
  where
    in_order :
        (size : ℕ) (up : Bool) (t : Text)
        → (read_stream size (record { coming = t; up = up })).0 ≡ ok bytes
        → t ≡ bytes ++ (read_stream size (record { coming = t; up = up })).1.coming
    in_order size false t e = ground arith
    in_order zero true t e = ground arith
    in_order (suc n) true [] e = ground arith
    in_order (suc n) true (c ∷ t) e = ground (arith, take-drop n t)

pub stream : Reader Stream
stream = record {
  read = read_stream;
  is_open = λ s. s.up;
  fits = fits-lem;
  ended = ended-lem;
  refused = refused-lem;
  coming = λ s. s.coming;
  in_order = in_order-lem;
}
