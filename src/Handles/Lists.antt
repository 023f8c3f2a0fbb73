-- ===== src/Handles/Lists.antt =====
-- Writes into lists and counts over them.
use fiberio.Base.{
  ◌≤◌, ℕ, zero, suc, ◌+◌, ◌≡◌, refl, Bool, List, [], ◌∷◌, ◌++◌, none, some, ◌==◌, if◌then◌else◌,
  length, get_elem?, count_if, arith,
}

abbrev pub one : Bool → ℕ
one b = if b then 1 else 0

module _ {ℓ} {A : Type ℓ} where
  -- A write out of bounds changes nothing.
  abbrev pub set : List A → ℕ → A → List A
  set [] i v = []
  set (x ∷ xs) zero v = v ∷ xs
  set (x ∷ xs) (suc i) v = x ∷ set xs i v

  pub get_elem?-set :
      (xs : List A) (i j : ℕ) (v x : A)
      → get_elem? xs i ≡ some x
      → get_elem? (set xs i v) j ≡ (if i == j then some v else get_elem? xs j)
  get_elem?-set [] i j v x h = absurd (cc h)
  get_elem?-set (y ∷ xs) zero zero v x h = refl
  get_elem?-set (y ∷ xs) zero (suc j) v x h = ground arith
  get_elem?-set (y ∷ xs) (suc i) zero v x h = ground arith
  get_elem?-set (y ∷ xs) (suc i) (suc j) v x h = ground (arith, get_elem?-set xs i j v x h)

  pub count_if-append :
      (p : A → Bool) (xs ys : List A) → count_if p (xs ++ ys) ≡ count_if p xs + count_if p ys
  count_if-append p [] ys = omega arith
  count_if-append p (x ∷ xs) ys = ground (arith, count_if-append p xs ys)

  pub count_if-append_one :
      (p : A → Bool) (xs : List A) (x : A) → count_if p (xs ++ x ∷ []) ≡ count_if p xs + one (p x)
  count_if-append_one p xs x = ground (arith, count_if-append p xs (x ∷ []))

  pub count_if-set :
      (p : A → Bool) (xs : List A) (i : ℕ) (v x : A)
      → get_elem? xs i ≡ some x
      → count_if p (set xs i v) + one (p x) ≡ count_if p xs + one (p v)
  count_if-set p [] i v x h = absurd (cc h)
  count_if-set p (y ∷ xs) zero v x h = ground arith
  count_if-set p (y ∷ xs) (suc i) v x h = ground (arith, count_if-set p xs i v x h)

  pub count_if-get_elem? :
      (p : A → Bool) (xs : List A) (i : ℕ) (x : A)
      → get_elem? xs i ≡ some x
      → one (p x) ≤ count_if p xs
  count_if-get_elem? p [] i x h = absurd (cc h)
  count_if-get_elem? p (y ∷ xs) zero x h = ground arith
  count_if-get_elem? p (y ∷ xs) (suc i) x h = ground (arith, count_if-get_elem? p xs i x h)

  pub get_elem?-append_one :
      (xs : List A) (x : A) (k : ℕ)
      → get_elem? (xs ++ x ∷ []) k ≡ (if length xs == k then some x else get_elem? xs k)
  get_elem?-append_one [] x zero = refl
  get_elem?-append_one [] x (suc k) = ground arith
  get_elem?-append_one (y ∷ xs) x zero = ground arith
  get_elem?-append_one (y ∷ xs) x (suc k) = ground (arith, get_elem?-append_one xs x k)

  pub get_elem?-length : (xs : List A) → get_elem? xs (length xs) ≡ none
  get_elem?-length [] = refl
  get_elem?-length (y ∷ xs) = get_elem?-length xs
