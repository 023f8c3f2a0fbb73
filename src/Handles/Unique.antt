-- ===== src/Handles/Unique.antt =====
-- The objects of src/server_socket.cpp, which own their implementations by `std::unique_ptr`.
use fiberio.Base.{
  ap, ℕ, ◌+◌, ◌≤◌, ◌≡◌, refl, false, List, [], ◌∷◌, ◌++◌, map, Option, none, some, ◌==◌, length,
  arith, Option-cases, Bool-cases, inl, inr,
}
use fiberio.Handles.{
  Impl, Handle, absent, empty, owns, Store, owner_of, owners, Op, release, present, with_handles,
  target, step, run, no_objects,
}
use fiberio.Handles.Lists.{set, one, count_if-append_one, get_elem?-length}
use fiberio.Handles.Written.{Owned}
use fiberio.Handles.Owned.{step-Owned, no_objects-Owned, set-owners}

-- What the class `server_socket` has: it can be moved, and not copied.
pub data ServerOp {ℓ} (S : Type ℓ) : Type ℓ where
  construct : ServerOp S
  move : ℕ → ServerOp S
  destroy : ℕ → ServerOp S
  call : ℕ → (S → S) → ServerOp S

abbrev pub op {ℓ} : {S : Type ℓ} → ServerOp S → Op S
op ServerOp.construct = Op.construct
op (ServerOp.move i) = Op.move i
op (ServerOp.destroy i) = Op.destroy i
op (ServerOp.call i f) = Op.call i f

module _ {ℓ} {S : Type ℓ} (impl : Impl S) where
  open impl use {new, is_open, close}

  abbrev pub Unique : Store S → Type 0
  Unique s = (k : ℕ) → owners k s.handles ≤ 1

  -- Each implementation that lives has exactly one owner, and the others are closed and have none.
  abbrev pub Single : Store S → Type 0
  Single s = Owned impl s × Unique s

  handles-release : (old : Handle) (s : Store S) → (release impl old s).handles ≡ s.handles
  unfolding release
  handles-release absent s = refl
  handles-release empty s = refl
  handles-release (owns k) s = ground arith

  module _ (closes : (x : S) → is_open (close x) ≡ false) where
    abbrev AfterUnique : Option (Store S) → Type 0
    AfterUnique none = Unit
    AfterUnique (some t) = Unique t

    -- The number of a new implementation is not in use.
    new_owners : (s : Store S) → Owned impl s → owners (length s.cells) s.handles ≡ 0
    new_owners s v = rw (get_elem?-length s.cells) at (v (length s.cells))

    make-Unique :
        (s : Store S)
        → Owned impl s
        → Unique s
        → (k : ℕ) → owners k (s.handles ++ owns (length s.cells) ∷ []) ≤ 1
    make-Unique s v u k = elim (Bool-cases (length s.cells == k)) [
      | inl e ↦
          let same : length s.cells ≡ k = ground arith in
          omega (arith, made, ap one e, rw same at (new_owners s v))
      | inr e ↦ omega (arith, made, ap one e, u k)
    ]
      where
        made :
            owners k (s.handles ++ owns (length s.cells) ∷ [])
            ≡ owners k s.handles + one (length s.cells == k)
        made = count_if-append_one (owner_of k) s.handles (owns (length s.cells))

    step-Unique :
        (o : ServerOp S) (s : Store S) → Owned impl s → Unique s → AfterUnique (step impl (op o) s)
    unfolding step
    step-Unique ServerOp.construct s v u = make-Unique s v u
    step-Unique (ServerOp.move i) s v u = elim (Option-cases (present impl i s)) [
      | inl n ↦ rw n tt
      | inr (h, e) ↦ rw e (λ k. omega (
        arith,
        u k,
        count_if-append_one (owner_of k) (set s.handles i empty) h,
        set-owners impl closes s i k empty h e,
      ))
    ]
    step-Unique (ServerOp.destroy i) s v u = elim (Option-cases (present impl i s)) [
      | inl n ↦ rw n tt
      | inr (old, e) ↦ rw e (
          rw (handles-release old (with_handles impl (set s.handles i absent) s))
            (λ k. omega (arith, u k, set-owners impl closes s i k absent old e)))
    ]
    step-Unique (ServerOp.call i f) s v u = elim (Option-cases (target impl i s)) [
      | inl n ↦ rw n tt
      | inr ((k, x), e) ↦ rw e u
    ]

    abbrev AfterSingle : Option (Store S) → Type 0
    AfterSingle none = Unit
    AfterSingle (some t) = Single t

    run-Single :
        (os : List (ServerOp S)) (s : Store S) → Single s → AfterSingle (run impl (map op os) s)
    unfolding run
    run-Single [] s v = v
    run-Single (o ∷ os) s (v, u) = elim (Option-cases (step impl (op o) s)) [
      | inl n ↦ rw n tt
      | inr (t, e) ↦ rw e (
          run-Single os t
            (rw e at (step-Owned impl closes (op o) s v), rw e at (step-Unique o s v u)))
    ]

    -- After any constructions, moves, calls and destructions of `server_socket` objects that have a
    -- meaning, an implementation is alive exactly as long as it has an owner, it never has two, and
    -- one that has none left has been closed. The close of the implementation is taken to close it.
    pub run-no_objects-Single :
        (os : List (ServerOp S)) (s : Store S) → run impl (map op os) no_objects ≡ some s → Single s
    run-no_objects-Single os s e =
        rw e at (run-Single os no_objects (no_objects-Owned impl closes, λ k. omega arith))
