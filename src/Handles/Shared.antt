-- ===== src/Handles/Shared.antt =====
-- Calls on objects that share an implementation, as copies of a `socket` do.
use fiberio.Base.{
  ◌∙◌, ℕ, ◌<◌, ◌≡◌, refl, sym, false, Option, none, some, ◌==◌, if◌then◌else◌, get_elem?, arith,
  Bool-cases, inl, inr, ap,
}
use fiberio.Handles.{
  Impl, socket_close, owns, Cell, live, dead, Store, owner_of, owners, update_cell, target,
  handle_is_open,
}
use fiberio.Handles.Lists.{count_if-get_elem?}
use fiberio.Handles.Written.{Kept, Owned, get_elem?-update_cell}

module _ {ℓ} {S : Type ℓ} (impl : Impl S) where
  open impl use {is_open, close}

  -- An implementation with an owner is there.
  Kept-live : (n : ℕ) (o : Option (Cell S)) → Kept impl n o → 0 < n → (x : S) × (o ≡ some (live x))
  Kept-live n none h p = absurd (omega arith)
  Kept-live n (some (live x)) h p = (x, refl)
  Kept-live n (some (dead x)) h p = absurd (omega (arith, h.0))

  pub Owned-live :
      (s : Store S) (i k : ℕ)
      → Owned impl s
      → get_elem? s.handles i ≡ some (owns k)
      → (x : S) × (get_elem? s.cells k ≡ some (live x))
  Owned-live s i k v e =
      Kept-live (owners k s.handles) (get_elem? s.cells k) (v k)
        (ground (arith, count_if-get_elem? (owner_of k) s.handles i (owns k) e))

  pub target-owns :
      (s : Store S) (i k : ℕ) (x : S)
      → get_elem? s.handles i ≡ some (owns k)
      → get_elem? s.cells k ≡ some (live x)
      → target impl i s ≡ some (k, x)
  target-owns s i k x e f = ground arith

  -- The objects after a call that leaves `y` of the implementation.
  abbrev pub after_call : Store S → ℕ → S → Store S
  after_call s k y = record s { cells = update_cell impl (λ c. live y) k s.cells }

  pub at_after :
      (s : Store S) (k m : ℕ) (x y : S)
      → get_elem? s.cells k ≡ some (live x)
      → get_elem? s.cells m ≡ some (live y)
      → (z : S)
      → get_elem? (update_cell impl (λ c. live z) k s.cells) m
        ≡ some (live (if k == m then z else y))
  at_after s k m x y e f z = elim (Bool-cases (k == m)) [
    | inl q ↦ rw (get_elem?-update_cell impl (λ c. live z) k s.cells m, q, f) refl
    | inr q ↦ rw (get_elem?-update_cell impl (λ c. live z) k s.cells m, q, f) refl
  ]

  pub is_open-owns :
      (s : Store S) (i k : ℕ) (x : S)
      → get_elem? s.handles i ≡ some (owns k)
      → get_elem? s.cells k ≡ some (live x)
      → handle_is_open impl i s ≡ some (is_open x)
  unfolding handle_is_open
  is_open-owns s i k x e f = rw (target-owns s i k x e f) refl

  -- Where the implementation is closed after a call, so are its owners, and no others.
  pub seen :
      (s : Store S) (j k m : ℕ) (x y z : S)
      → is_open z ≡ false
      → get_elem? s.handles j ≡ some (owns m)
      → get_elem? s.cells k ≡ some (live x)
      → get_elem? s.cells m ≡ some (live y)
      → handle_is_open impl j (after_call s k z)
        ≡ (if k == m then some false else handle_is_open impl j s)
  seen s j k m x y z c f at_k at_m = elim (Bool-cases (k == m)) [
    | inl q ↦ rw q (
        is_open-owns (after_call s k z) j m z f (rw q at (at_after s k m x y at_k at_m z))
        ∙ ap some c)
    | inr q ↦ rw q (
        is_open-owns (after_call s k z) j m y f (rw q at (at_after s k m x y at_k at_m z))
        ∙ sym (is_open-owns s j m y f at_m))
  ]

  module _ (closes : (x : S) → is_open (close x) ≡ false) where
    -- `close` of an object closes every object that owns the same implementation, and no other.
    pub socket_close-shared :
        (s : Store S) (i k : ℕ)
        → Owned impl s
        → get_elem? s.handles i ≡ some (owns k)
        → (t : Store S) × (socket_close impl i s ≡ some t)
          × ((j m : ℕ)
              → get_elem? s.handles j ≡ some (owns m)
              → handle_is_open impl j t ≡ (if k == m then some false else handle_is_open impl j s))
    unfolding socket_close
    socket_close-shared s i k v e =
        let (x, at_k) = Owned-live s i k v e in
        (
          after_call s k (close x),
          rw (target-owns s i k x e at_k) refl,
          λ j m f.
              let (y, at_m) = Owned-live s j m v f in
              seen s j k m x y (close x) (closes x) f at_k at_m,
        )
