-- ===== src/Handles/Device.antt =====
-- The device of include/fiberio/iostream.hpp and the objects of src/socket.cpp that share the
-- connection of its socket.
use fiberio.Base.{
  ℕ, zero, suc, ◌≡◌, refl, sym, ap, ◌∙◌, Bool, true, false, ◌&&◌, ◌||◌, List, [], ◌∷◌, Option, none,
  some, ◌==◌, if◌then◌else◌, get_elem?, arith, Bool-cases, inl, inr,
}
use fiberio.Handles.{
  Impl, owns, Cell, live, Store, Op, socket_close, update_cell, run, no_objects, handle_is_open,
}
use fiberio.Handles.Owned.{run-no_objects-Owned}
use fiberio.Handles.Shared.{Owned-live, target-owns, after_call, at_after, seen}
use fiberio.SocketDevice.{Mode, mode_in, mode_out, mode_other, SocketDevice}
use fiberio.SocketDevice
use fiberio.SocketDevice.Reading.{names_in, names_out, fresh}

module _ {ℓ} {S : Type ℓ} (impl : Impl S) where
  open impl use {is_open, close}

  -- `close(mode)` of a device whose `socket_` is object `i`.
  unfoldable pub device_close : ℕ → Mode → SocketDevice × Store S → Option (SocketDevice × Store S)
  device_close i mode (d, s) =
      let d' = SocketDevice.close mode d in
      if d'.closed_in && d'.closed_out
      then elim (socket_close impl i s) [ none ↦ none | some t ↦ some (d', t) ]
      else some (d', s)

  unfoldable pub device_close_all :
      ℕ → List Mode → SocketDevice × Store S → Option (SocketDevice × Store S)
  device_close_all i [] p = some p
  device_close_all i (m ∷ ms) p = elim (device_close i m p) [
    | none ↦ none
    | some q ↦ device_close_all i ms q
  ]

  update_cell_twice :
      (k : ℕ) (x y : S) (cs : List (Cell S))
      → update_cell impl (λ c. live y) k (update_cell impl (λ c. live x) k cs)
        ≡ update_cell impl (λ c. live y) k cs
  update_cell_twice k x y [] = refl
  update_cell_twice zero x y (c ∷ cs) = refl
  update_cell_twice (suc k) x y (c ∷ cs) =
      ap (λ (l : List (Cell S)). c ∷ l) (update_cell_twice k x y cs)

  update_cell_same :
      (k : ℕ) (x : S) (cs : List (Cell S))
      → get_elem? cs k ≡ some (live x)
      → update_cell impl (λ c. live x) k cs ≡ cs
  update_cell_same k x [] e = refl
  update_cell_same zero x (c ∷ cs) e = ap (λ (d : Cell S). d ∷ cs) (sym (head e))
    where
      head : ◌≡◌ {A = Option (Cell S)} (some c) (some (live x)) → c ≡ live x
      head e = cc e
  update_cell_same (suc k) x (c ∷ cs) e =
      ap (λ (l : List (Cell S)). c ∷ l) (update_cell_same k x cs e)

  -- Both directions, before or among these.
  abbrev both : SocketDevice → List Mode → Bool
  both d ms = (d.closed_in || names_in ms) && (d.closed_out || names_out ms)

  both-close :
      (m : Mode) (d : SocketDevice) (ms : List Mode)
      → both (SocketDevice.close m d) ms ≡ both d (m ∷ ms)
  unfolding SocketDevice.close
  both-close mode_in d ms = ground arith
  both-close mode_out d ms = ground arith
  both-close mode_other d ms = refl

  next-closes :
      (i : ℕ) (m : Mode) (ms : List Mode) (p q : SocketDevice × Store S)
      → device_close i m p ≡ some q
      → device_close_all i (m ∷ ms) p ≡ device_close_all i ms q
  unfolding device_close_all
  next-closes i m ms p q e = rw (e, device_close_all) refl

  -- `both` flags are set on an implementation that is closed already.
  abbrev Done : SocketDevice → S → Type 0
  Done d x = d.closed_in ≡ true → d.closed_out ≡ true → is_open x ≡ false

  module _ (closes : (x : S) → is_open (close x) ≡ false) (s : Store S) (i k : ℕ) (x₀ : S)
      (owner : get_elem? s.handles i ≡ some (owns k))
      (at_k : get_elem? s.cells k ≡ some (live x₀)) where
    -- What `device_close` does to the implementation, once it is `x`.
    abbrev closed_by : SocketDevice → S → S
    closed_by d x = if d.closed_in && d.closed_out then close x else x

    cell : (x : S) → get_elem? (after_call impl s k x).cells k ≡ some (live x)
    cell x =
        (let same : (k == k) ≡ true = ground arith in
          rw same at (at_after impl s k k x₀ x₀ at_k at_k x))

    close-again :
        (x : S) → socket_close impl i (after_call impl s k x) ≡ some (after_call impl s k (close x))
    unfolding socket_close
    close-again x = rw (target-owns impl (after_call impl s k x) i k x owner (cell x)) (
        ap (λ (cs : List (Cell S)). some (record s { cells = cs }))
          (update_cell_twice k x (close x) s.cells))

    device_close-eq :
        (m : Mode) (d : SocketDevice) (x : S)
        → device_close i m (d, after_call impl s k x)
          ≡ some
              (SocketDevice.close m d, after_call impl s k (closed_by (SocketDevice.close m d) x))
    unfolding device_close
    device_close-eq m d x =
        elim (Bool-cases
          ((SocketDevice.close m d).closed_in && (SocketDevice.close m d).closed_out)) [
            | inl y ↦ rw y (rw (close-again x) refl)
            | inr n ↦ rw n refl
          ]

    closed_by-Done : (d : SocketDevice) (x : S) → Done d (closed_by d x)
    closed_by-Done d x a b = rw (a, b) (closes x)

    -- An implementation that is not closed is left as it is.
    closed_by-same :
        (d : SocketDevice) (ms : List Mode) (x : S) → both d ms ≡ false → closed_by d x ≡ x
    closed_by-same d ms x n =
        let off : (d.closed_in && d.closed_out) ≡ false = ground arith in rw off refl

    loop-closes :
        (ms : List Mode) (d : SocketDevice) (x : S)
        → Done d x
        → (y : S) × (device_close_all i ms (d, after_call impl s k x)
            ≡ some (SocketDevice.Reading.close_all ms d, after_call impl s k y))
          × (both d ms ≡ true → is_open y ≡ false)
          × (both d ms ≡ false → y ≡ x)
    unfolding device_close_all
    loop-closes [] d x h = (x, refl, λ e. h (ground arith) (ground arith), λ _. refl)
    loop-closes (m ∷ ms) d x h =
        let d' = SocketDevice.close m d in
        let (y, runs, shut, kept) = loop-closes ms d' (closed_by d' x) (closed_by-Done d' x) in
        (
          y,
          next-closes i m ms _ _ (device_close-eq m d x) ∙ runs,
          λ e. shut (both-close m d ms ∙ e),
          λ e. kept (both-close m d ms ∙ e) ∙ closed_by-same d' ms x (both-close m d ms ∙ e),
        )

    after_call-same : after_call impl s k x₀ ≡ s
    after_call-same =
        ap (λ (cs : List (Cell S)). record s { cells = cs }) (update_cell_same k x₀ s.cells at_k)

    -- What the objects see once the device has told its socket to close, or has not.
    seen_after :
        (b : Bool) (y z : S) (j m : ℕ)
        → (b ≡ true → is_open y ≡ false)
        → (b ≡ false → y ≡ x₀)
        → get_elem? s.handles j ≡ some (owns m)
        → get_elem? s.cells m ≡ some (live z)
        → handle_is_open impl j (after_call impl s k y)
          ≡ (if (k == m) && b then some false else handle_is_open impl j s)
    seen_after true y z j m shut kept f at_m = elim (Bool-cases (k == m)) [
      | inl q ↦ rw q (rw q at (seen impl s j k m x₀ z y (shut refl) f at_k at_m))
      | inr q ↦ rw q (rw q at (seen impl s j k m x₀ z y (shut refl) f at_k at_m))
    ]
    seen_after false y z j m shut kept f at_m =
        let same : handle_is_open impl j (after_call impl s k y) ≡ handle_is_open impl j s =
          ap (λ (x : S). handle_is_open impl j (after_call impl s k x)) (kept refl)
          ∙ ap (handle_is_open impl j) after_call-same in
        elim (Bool-cases (k == m)) [ inl q ↦ rw q same | inr q ↦ rw q same ]

  -- After any operations on `socket` objects that have a meaning, any closes of the directions of a
  -- new device on an object that owns an implementation have a meaning, and set the flags of the
  -- device as its own `close` does. If they name both directions, every object that owns the same
  -- implementation is closed by then, and each of the others that own one is open or closed as it
  -- was before; if not, that holds of all of them. The close of the implementation is taken to
  -- close it.
  pub device_close_all-shared :
      (closes : (x : S) → is_open (close x) ≡ false) (os : List (Op S)) (s : Store S) (i k : ℕ)
      (ms : List Mode)
      → run impl os no_objects ≡ some s
      → get_elem? s.handles i ≡ some (owns k)
      → (t : Store S) × (device_close_all i ms (fresh, s)
          ≡ some (SocketDevice.Reading.close_all ms fresh, t))
        × ((j m : ℕ)
            → get_elem? s.handles j ≡ some (owns m)
            → handle_is_open impl j t ≡ (
                if (k == m) && (names_in ms && names_out ms)
                then some false
                else handle_is_open impl j s))
  device_close_all-shared closes os s i k ms r e =
      let v = run-no_objects-Owned impl closes os s r in
      let (x, at_k) = Owned-live impl s i k v e in
      let (y, runs, shut, kept) = loop-closes closes s i k x e at_k ms fresh x (λ a b. cc a) in
      (
        after_call impl s k y,
        rw (after_call-same closes s i k x e at_k) at runs,
        λ j m f.
            let (z, at_m) = Owned-live impl s j m v f in
            seen_after closes s i k x e at_k (names_in ms && names_out ms) y z j m shut kept f at_m,
      )
