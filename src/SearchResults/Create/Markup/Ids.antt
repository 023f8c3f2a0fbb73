-- ===== src/SearchResults/Create/Markup/Ids.antt =====
-- The ids of the links that createResults makes, and the numbers in them.
use fiberio.Base.{
  ℕ, zero, suc, ◌+◌, ◌*◌, ◌-◌, ◌/◌, ◌%◌, ◌<◌, ◌≡◌, ◌≢◌, refl, sym, false, ◌&&◌, [], ◌∷◌, ◌++◌, ltb,
  leb, if◌then◌else◌, Text, codes, text_eq, eq_of_text_eq, arith, ap, ◌∙◌, Bool-cases, inl, inr,
}
use mathlib.Core.List.{append-nil}
use fiberio.SearchResults.Create.Markup.{decimal_digits, to_decimal, link_id, child_id}

-- A reader of numbers, with what follows the digits.
read_number : ℕ → Text → ℕ × Text
read_number a [] = (a, [])
read_number a (c ∷ s) =
    let r = read_number (a * 10 + (c - b'0')) s in
    if leb b'0' c && leb c b'9' then r else (a, c ∷ s)

decimal_digits-append :
    (f n : ℕ) (s t : Text) → decimal_digits f n s ++ t ≡ decimal_digits f n (s ++ t)
unfolding decimal_digits
decimal_digits-append zero n s t = refl
decimal_digits-append (suc f) n s t =
    ground (arith, decimal_digits-append f (n / 10) ((n % 10 + b'0') ∷ s) t)

read_number-digit :
    (a d m : ℕ) (s : Text)
    → d < 10
    → m ≡ a * 10 + d
    → read_number a ((d + b'0') ∷ s) ≡ read_number m s
unfolding read_number
read_number-digit a d m s h e = ground arith

read_number-decimal_digits :
    (f n : ℕ) (s : Text) → n < f → read_number 0 (decimal_digits f n s) ≡ read_number n s
unfolding decimal_digits
read_number-decimal_digits zero n s h = absurd (omega arith)
read_number-decimal_digits (suc f) n s h = elim (Bool-cases (ltb n 10)) [
  | inl e ↦ rw e (read_number-digit 0 n n s (ground arith) (omega arith))
  | inr e ↦ rw e (
      read_number-decimal_digits f (n / 10) ((n % 10 + b'0') ∷ s) (ground arith)
      ∙ read_number-digit (n / 10) (n % 10) n s (omega arith) (omega arith))
]

read_number-to_decimal : (n : ℕ) (t : Text) → read_number 0 (to_decimal n ++ t) ≡ read_number n t
unfolding to_decimal
read_number-to_decimal n t =
    rw (decimal_digits-append (suc n) n [] t) (read_number-decimal_digits (suc n) n t (omega arith))

-- The number of the entry in an id, and what follows it.
after_item : Text → Text
after_item (a ∷ b ∷ c ∷ d ∷ t) = t
after_item _ = []

number_of : Text → ℕ × Text
number_of i = read_number 0 (after_item i)

number_of-link_id : (e : ℕ) → number_of (link_id e) ≡ (e, [])
unfolding number_of after_item read_number
number_of-link_id e = rw append-nil at (read_number-to_decimal e [])

number_of-child_id : (e c : ℕ) → number_of (child_id e c) ≡ (e, codes "_c" ++ to_decimal c)
unfolding number_of after_item read_number
number_of-child_id e c = read_number-to_decimal e (codes "_c" ++ to_decimal c)

to_decimal-inj : (c d : ℕ) → to_decimal c ≡ to_decimal d → c ≡ d
unfolding read_number
to_decimal-inj c d e =
    ap (λ (r : ℕ × Text). r.0)
      (sym (read_number-to_decimal c [])
        ∙ ap (λ (t : Text). read_number 0 (t ++ [])) e
        ∙ read_number-to_decimal d [])

apart : (x y : Text) → x ≢ y → text_eq x y ≡ false
apart x y n = elim (Bool-cases (text_eq x y)) [
  | inl e ↦ absurd (n (eq_of_text_eq x y e))
  | inr e ↦ e
]

pub link-link : (e j : ℕ) → e ≢ j → text_eq (link_id e) (link_id j) ≡ false
link-link e j n =
    apart (link_id e) (link_id j)
      (λ h. n (cc (number_of-link_id e, number_of-link_id j, ap number_of h)))

pub child-link : (e c j : ℕ) → text_eq (child_id e c) (link_id j) ≡ false
child-link e c j =
    apart (child_id e c) (link_id j)
      (λ h. absurd (cc (number_of-child_id e c, number_of-link_id j, ap number_of h)))

pub link-child : (e j d : ℕ) → text_eq (link_id e) (child_id j d) ≡ false
link-child e j d =
    apart (link_id e) (child_id j d)
      (λ h. absurd (cc (number_of-child_id j d, number_of-link_id e, ap number_of h)))

pub child-entry : (e c j d : ℕ) → e ≢ j → text_eq (child_id e c) (child_id j d) ≡ false
child-entry e c j d n =
    apart (child_id e c) (child_id j d)
      (λ h. n (cc (number_of-child_id e c, number_of-child_id j d, ap number_of h)))

pub child-child : (e c j d : ℕ) → c ≢ d → text_eq (child_id e c) (child_id j d) ≡ false
child-child e c j d n = apart (child_id e c) (child_id j d) (λ h.
    n (to_decimal-inj c d (cc (number_of-child_id e c, number_of-child_id j d, ap number_of h))))
