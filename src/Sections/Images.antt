-- ===== src/Sections/Images.antt =====
-- The images of the sections and groups of docs/html/dynsections.js.
use fiberio.Base.{
  ℕ, zero, suc, ◌-◌, ◌≡◌, refl, Bool, true, false, not, List, [], ◌∷◌, ◌++◌, map, if◌then◌else◌,
  Text, codes, length, take, length-append, arith, ap, ◌∙◌,
}
use fiberio.Sections.{cut, Section, toggle_visibility, Inherited, toggle_inherit}

take-length_append : (s t : Text) → take (length s) (s ++ t) ≡ s
take-length_append [] t = refl
take-length_append (c ∷ s) t = ap (λ (r : Text). c ∷ r) (take-length_append s t)

cut-append : (n : ℕ) (s t : Text) → length t ≡ n → cut n (s ++ t) ≡ s
cut-append n s t h = rw exact (take-length_append s t)
  where
    exact : length (s ++ t) - n ≡ length s
    exact = omega (arith, length-append s t)

-- The image of an open or a closed part, where `base` is its address but for the end.
abbrev pub image : Text → Bool → Text
image base is_open = base ++ (if is_open then codes "open.png" else codes "closed.png")

abbrev pub section : Text → Bool → Section
section base is_open = record {
  opened = is_open;
  closed = not is_open;
  content = is_open;
  summary = not is_open;
  src = image base is_open;
}

abbrev pub toggled {ℓ} : {A : Type ℓ} → (A → A) → ℕ → A → A
toggled f zero a = a
toggled f (suc n) a = f (toggled f n a)

abbrev pub is_even : ℕ → Bool
is_even zero = true
is_even (suc n) = not (is_even n)

not_if : (e b : Bool) → not (if e then b else not b) ≡ (if not e then b else not b)
not_if true b = refl
not_if false true = refl
not_if false false = refl

toggle_visibility-section :
    (base : Text) (b : Bool) → toggle_visibility (section base b) ≡ section base (not b)
unfolding toggle_visibility
toggle_visibility-section base true = rw (cut-append 8 base (codes "open.png") refl) refl
toggle_visibility-section base false = rw (cut-append 10 base (codes "closed.png") refl) refl

-- However often a section whose parts agree is toggled, its image, its two classes, its content and
-- its summary agree, and it is as it was after an even number of times.
toggled-section :
    (base : Text) (b : Bool) (n : ℕ)
    → toggled toggle_visibility n (section base b) ≡ section base (if is_even n then b else not b)
toggled-section base b zero = refl
toggled-section base b (suc n) =
    rw (toggled-section base b n)
      (toggle_visibility-section base _ ∙ ap (section base) (not_if (is_even n) b))

abbrev pub replicate {ℓ} : {A : Type ℓ} → ℕ → A → List A
replicate zero a = []
replicate (suc n) a = a ∷ replicate n a

map-replicate : (f : Bool → Bool) (n : ℕ) (b : Bool) → map f (replicate n b) ≡ replicate n (f b)
map-replicate f zero b = refl
map-replicate f (suc n) b = ap (λ (r : List Bool). f b ∷ r) (map-replicate f n b)

-- A group of `suc n` rows.
abbrev pub group : ℕ → Text → Bool → Inherited
group n base is_open = record { rows = replicate (suc n) is_open; src = image base is_open }

toggle_inherit-group :
    (n : ℕ) (base : Text) (b : Bool) → toggle_inherit (group n base b) ≡ group n base (not b)
unfolding toggle_inherit
toggle_inherit-group n base true =
    rw (cut-append 8 base (codes "open.png") refl, map-replicate (λ b. false) n true) refl
toggle_inherit-group n base false =
    rw (cut-append 10 base (codes "closed.png") refl, map-replicate (λ b. true) n false) refl

-- However often a group of inherited members with at least one row is toggled, its rows and its
-- image agree, and it is as it was after an even number of times.
toggled-group :
    (n : ℕ) (base : Text) (b : Bool) (m : ℕ)
    → toggled toggle_inherit m (group n base b) ≡ group n base (if is_even m then b else not b)
toggled-group n base b zero = refl
toggled-group n base b (suc m) =
    rw (toggled-group n base b m)
      (toggle_inherit-group n base _ ∙ ap (group n base) (not_if (is_even m) b))
