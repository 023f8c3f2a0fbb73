-- ===== src/Handles/Written.antt =====
-- What src/socket.cpp leaves of the implementations when a handle is written over: their owners are
-- counted, and the one that has none left is destroyed.
use fiberio.Base.{
  ℕ, zero, suc, ◌+◌, ◌≤◌, ◌<◌, ◌≡◌, ◌⊎◌, inl, inr, refl, Bool, true, false, List, [], ◌∷◌, Option,
  none, some, ◌==◌, if◌then◌else◌, get_elem?, arith, Bool-cases,
}
use fiberio.Handles.{
  Impl, Handle, absent, empty, owns, Cell, live, dead, Store, owner_of, owners, finish, update_cell,
  release, with_handles,
}
use fiberio.Handles.Lists.{one}

module _ {ℓ} {S : Type ℓ} (impl : Impl S) where
  open impl use {new, is_open, close}

  -- What an implementation is to as many owners: alive if it has one, and closed if it has none left.
  abbrev pub Kept : ℕ → Option (Cell S) → Type 0
  Kept n none = n ≡ 0
  Kept n (some (live x)) = 0 < n
  Kept n (some (dead x)) = (n ≡ 0) × (is_open x ≡ false)

  abbrev pub Owned : Store S → Type 0
  Owned s = (k : ℕ) → Kept (owners k s.handles) (get_elem? s.cells k)

  -- The same, but that what `old` owned may have no owner left.
  abbrev pub Nearly : ℕ → Bool → Option (Cell S) → Type 0
  Nearly n was none = n ≡ 0
  Nearly n was (some (live x)) = (was ≡ true) ⊎ (0 < n)
  Nearly n was (some (dead x)) = (n ≡ 0) × (is_open x ≡ false)

  abbrev pub Almost : Handle → Store S → Type 0
  Almost old s = (k : ℕ) → Nearly (owners k s.handles) (owner_of k old) (get_elem? s.cells k)

  pub get_elem?-update_cell :
      (f : Cell S → Cell S) (k : ℕ) (cs : List (Cell S)) (j : ℕ)
      → get_elem? (update_cell impl f k cs) j ≡ (
          if k == j
          then (elim (get_elem? cs j) [ none ↦ none | some c ↦ some (f c) ])
          else get_elem? cs j)
  get_elem?-update_cell f k [] j = ground arith
  get_elem?-update_cell f zero (c ∷ cs) zero = refl
  get_elem?-update_cell f zero (c ∷ cs) (suc j) = ground arith
  get_elem?-update_cell f (suc k) (c ∷ cs) zero = ground arith
  get_elem?-update_cell f (suc k) (c ∷ cs) (suc j) = ground (arith, get_elem?-update_cell f k cs j)

  pub Nearly-Kept :
      (n : ℕ) (was : Bool) (o : Option (Cell S))
      → Nearly n was o
      → (was ≡ false) ⊎ (0 < n)
      → Kept n o
  Nearly-Kept n was none h w = h
  Nearly-Kept n was (some (live x)) (inr p) w = p
  Nearly-Kept n was (some (live x)) (inl p) (inl q) = absurd (cc (p, q))
  Nearly-Kept n was (some (live x)) (inl p) (inr q) = q
  Nearly-Kept n was (some (dead x)) h w = h

  -- The numbers of owners before and after a handle has been written over.
  pub Kept-Nearly :
      (n n' : ℕ) (was is : Bool) (o : Option (Cell S))
      → Kept n o
      → n' + one was ≡ n + one is
      → one is ≤ n
      → Nearly n' was o
  Kept-Nearly n n' was is none h e l = ground arith
  Kept-Nearly n n' true is (some (live x)) h e l = inl refl
  Kept-Nearly n n' false is (some (live x)) h e l = inr (omega (arith, e))
  Kept-Nearly n n' was is (some (dead x)) h e l = (ground arith, h.1)

  pub Owned-Almost :
      (s : Store S) (hs : List Handle) (old new : Handle)
      → Owned s
      → ((k : ℕ) → owners k hs + one (owner_of k old) ≡ owners k s.handles + one (owner_of k new))
      → ((k : ℕ) → one (owner_of k new) ≤ owners k s.handles)
      → Almost old (with_handles impl hs s)
  Owned-Almost s hs old new v e l = λ k.
      Kept-Nearly (owners k s.handles) (owners k hs) (owner_of k old) (owner_of k new)
        (get_elem? s.cells k) (v k) (e k) (l k)

  module _ (closes : (x : S) → is_open (close x) ≡ false) where
    Kept-finish :
        (o : Option (Cell S))
        → Nearly 0 true o
        → Kept 0 (elim o [ none ↦ none | some c ↦ some (finish impl c) ])
    Kept-finish none h = h
    Kept-finish (some (live x)) h = (refl, ground (arith, closes x))
    Kept-finish (some (dead x)) h = h

    -- The destructor of the implementation that has no owner left.
    finish-Owned :
        (j : ℕ) (s : Store S)
        → Almost (owns j) s
        → owners j s.handles ≡ 0
        → Owned (record s { cells = update_cell impl (finish impl) j s.cells })
    finish-Owned j s h z k =
        rw (get_elem?-update_cell (finish impl) j s.cells k) (elim (Bool-cases (j == k)) [
          | inl e ↦
              rw e (
                rw (none_left e) (Kept-finish (get_elem? s.cells k) (rw (none_left e, e) at (h k))))
          | inr e ↦
              rw e (Nearly-Kept (owners k s.handles) (j == k) (get_elem? s.cells k) (h k) (inl e))
        ])
      where
        none_left : (j == k) ≡ true → owners k s.handles ≡ 0
        none_left e = let same : j ≡ k = ground arith in rw (← same) z

    pub release-Owned : (old : Handle) (s : Store S) → Almost old s → Owned (release impl old s)
    unfolding release
    release-Owned absent s h = λ k. Nearly-Kept _ false _ (h k) (inl refl)
    release-Owned empty s h = λ k. Nearly-Kept _ false _ (h k) (inl refl)
    release-Owned (owns j) s h = elim (Bool-cases (owners j s.handles == 0)) [
      | inl z ↦ rw z (finish-Owned j s h (ground arith))
      | inr n ↦
          rw n
            (λ k. Nearly-Kept (owners k s.handles) (j == k) (get_elem? s.cells k) (h k) (still k n))
    ]
      where
        still :
            (k : ℕ)
            → (owners j s.handles == 0) ≡ false
            → ((j == k) ≡ false) ⊎ (0 < owners k s.handles)
        still k n = elim (Bool-cases (j == k)) [
          | inl e ↦ let same : j ≡ k = ground arith in inr (rw same at (not_none n))
          | inr e ↦ inl e
        ]
          where
            not_none : (owners j s.handles == 0) ≡ false → 0 < owners j s.handles
            not_none h = ground arith
