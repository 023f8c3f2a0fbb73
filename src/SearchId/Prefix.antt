-- ===== src/SearchId/Prefix.antt =====
-- The identifiers of convertToId against the texts that they stand for.
use fiberio.Base.{
  ℕ, ◌/◌, ◌%◌, ◌<◌, ◌≡◌, refl, ◌≢◌, ◌⊎◌, inl, inr, true, ◌&&◌, List, [], ◌∷◌, ◌++◌, arith, ◌==◌,
  Text, starts_with, ap, ◌∙◌, sym, starts_with_refl, starts_with_antisymm,
}
use fiberio.SearchId.{hex_digit, is_kept, convert_unit, convert_to_id, to_hex-one, to_hex-two}

-- The text consists of 16-bit code units.
abbrev pub Units : Text → Type 0
Units [] = Unit {0}
Units (c ∷ s) = (c < 0x10000) × Units s

hex_digit-inj : (a b : ℕ) → a < 16 → b < 16 → hex_digit a ≡ hex_digit b → a ≡ b
unfolding hex_digit
hex_digit-inj a b h k e = ground arith

escape : ℕ → Text
escape c = b'_' ∷ hex_digit (c / 16) ∷ hex_digit (c % 16) ∷ []

convert_unit-cases :
    (c : ℕ)
    → c < 0x10000
    → ((convert_unit c ≡ c ∷ []) × (c ≢ b'_') × (is_kept c ≡ true))
      ⊎ ((convert_unit c ≡ escape c) × (c < 128))
unfolding convert_unit is_kept escape hex_digit
convert_unit-cases c h = ground (arith, to_hex-one c, to_hex-two c)

escape-inj :
    (c d : ℕ)
    → c < 128
    → d < 128
    → hex_digit (c / 16) ≡ hex_digit (d / 16)
    → hex_digit (c % 16) ≡ hex_digit (d % 16)
    → c ≡ d
escape-inj c d h k p q = omega (
  arith,
  hex_digit-inj (c / 16) (d / 16) (omega arith) (omega arith) p,
  hex_digit-inj (c % 16) (d % 16) (omega arith) (omega arith) q,
)

starts_with-convert_unit :
    (c d : ℕ) (s t : Text)
    → c < 0x10000
    → d < 0x10000
    → starts_with (convert_unit c ++ s) (convert_unit d ++ t) ≡ (c == d && starts_with s t)
unfolding starts_with escape
starts_with-convert_unit c d s t h k = elim (convert_unit-cases c h) [
  | inl (e, n, _) ↦ elim (convert_unit-cases d k) [
    | inl (e', n', _) ↦ rw (e, e') refl
    | inr (e', n') ↦ rw (e, e') (ground arith)
  ]
  | inr (e, n) ↦ elim (convert_unit-cases d k) [
    | inl (e', n', _) ↦ rw (e, e') (ground arith)
    | inr (e', n') ↦ rw (e, e') (ground (arith, escape-inj c d n n'))
  ]
]

-- One text of 16-bit units begins another exactly when the identifier of the one begins that of the
-- other.
pub starts_with-convert_to_id :
    (s t : Text)
    → Units s
    → Units t
    → starts_with (convert_to_id s) (convert_to_id t) ≡ starts_with s t
unfolding convert_to_id starts_with
starts_with-convert_to_id [] t h k = refl
starts_with-convert_to_id (c ∷ s) [] h k = elim (convert_unit-cases c h.0) [
  | inl (e, n, _) ↦ rw e refl
  | inr (e, n) ↦ rw e (unfold escape in refl)
]
starts_with-convert_to_id (c ∷ s) (d ∷ t) h k =
    starts_with-convert_unit c d _ _ h.0 k.0
    ∙ ap (λ b. c == d && b) (starts_with-convert_to_id s t h.1 k.1)

-- Different texts of 16-bit units have different identifiers.
convert_to_id-inj : (s t : Text) → Units s → Units t → convert_to_id s ≡ convert_to_id t → s ≡ t
convert_to_id-inj s t h k e =
    starts_with_antisymm s t
      (sym (starts_with-convert_to_id s t h k) ∙ (rw e (starts_with_refl (convert_to_id t))))
      (sym (starts_with-convert_to_id t s k h) ∙ (rw e (starts_with_refl (convert_to_id t))))

-- A unit that may stand in an identifier: a lower-case letter, a digit, `_`, or past ASCII.
abbrev pub IdUnit : ℕ → Type 0
IdUnit c = (c ≡ b'_') ⊎ (is_kept c ≡ true)

abbrev pub All {ℓ κ} : {A : Type ℓ} → (A → Type κ) → List A → Type κ
All P [] = Unit
All P (x ∷ xs) = P x × All P xs

All-append {ℓ κ} :
    {A : Type ℓ} (P : A → Type κ) (xs ys : List A) → All P xs → All P ys → All P (xs ++ ys)
All-append P [] ys h k = k
All-append P (x ∷ xs) ys h k = (h.0, All-append P xs ys h.1 k)

hex_digit-IdUnit : (d : ℕ) → d < 16 → IdUnit (hex_digit d)
unfolding hex_digit is_kept
hex_digit-IdUnit d h = inr (ground arith)

convert_unit-All : (c : ℕ) → c < 0x10000 → All IdUnit (convert_unit c)
unfolding escape
convert_unit-All c h = elim (convert_unit-cases c h) [
  | inl (e, n, k) ↦ rw e (inr k, tt)
  | inr (e, n) ↦
      rw e (inl refl, (hex_digit-IdUnit _ (omega arith), (hex_digit-IdUnit _ (omega arith), tt)))
]

-- The identifier of a text of 16-bit units has only lower-case letters, digits, `_` and units past
-- ASCII.
convert_to_id-All : (s : Text) → Units s → All IdUnit (convert_to_id s)
unfolding convert_to_id
convert_to_id-All [] h = tt
convert_to_id-All (c ∷ s) h =
    All-append IdUnit (convert_unit c) _ (convert_unit-All c h.0) (convert_to_id-All s h.1)
