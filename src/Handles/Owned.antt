-- ===== src/Handles/Owned.antt =====
-- The implementations and their owners, from the first object to the last.
use fiberio.Base.{
  ap, ℕ, ◌+◌, ◌≤◌, ◌≡◌, inl, inr, refl, false, List, [], ◌∷◌, ◌++◌, Option, none, some, ◌==◌,
  length, get_elem?, arith, Option-cases, Bool-cases,
}
use fiberio.Handles.{
  Impl, Handle, absent, empty, owns, live, Store, owner_of, owners, Op, construct, adopt, copy,
  move, copy_assign, move_assign, destroy, call, update_cell, release, present, with_handles,
  target, step, run, no_objects,
}
use fiberio.Handles.Lists.{
  count_if-append_one, set, get_elem?-set, one, count_if-set, count_if-get_elem?,
  get_elem?-append_one,
}
use fiberio.Handles.Written.{
  Owned, Nearly-Kept, Kept-Nearly, Owned-Almost, get_elem?-update_cell, release-Owned,
}

module _ {ℓ} {S : Type ℓ} (impl : Impl S) where
  open impl use {new, is_open, close}

  module _ (closes : (x : S) → is_open (close x) ≡ false) where
    present-get_elem? :
        (i : ℕ) (s : Store S) (h : Handle)
        → present impl i s ≡ some h
        → get_elem? s.handles i ≡ some h
    present-get_elem? i s h e = ground arith

    -- The objects after an operation, if it has a meaning.
    abbrev pub After : Option (Store S) → Type 0
    After none = Unit
    After (some t) = Owned impl t

    append-Owned :
        (s : Store S) (h : Handle)
        → Owned impl s
        → ((k : ℕ) → one (owner_of k h) ≤ owners k s.handles)
        → Owned impl (with_handles impl (s.handles ++ h ∷ []) s)
    append-Owned s h v l = λ k.
        Nearly-Kept impl (owners k (s.handles ++ h ∷ [])) false (get_elem? s.cells k)
          (Kept-Nearly impl (owners k s.handles) _ false (owner_of k h) (get_elem? s.cells k) (v k)
            (omega (arith, count_if-append_one (owner_of k) s.handles h)) (l k))
          (inl refl)

    make-Owned :
        (s : Store S) (x : S)
        → Owned impl s
        → Owned impl (record {
          handles = s.handles ++ owns (length s.cells) ∷ [];
          cells = s.cells ++ live x ∷ [];
        })
    make-Owned s x v k =
        rw (get_elem?-append_one s.cells (live x) k) (elim (Bool-cases (length s.cells == k)) [
          | inl e ↦ rw e (omega (arith, owners_made, ap one e))
          | inr e ↦ rw e (
              Nearly-Kept impl _ false (get_elem? s.cells k)
                (Kept-Nearly impl (owners k s.handles) _ false false (get_elem? s.cells k) (v k)
                  (omega (arith, owners_made, ap one e)) (omega arith))
                (inl refl))
        ])
      where
        owners_made :
            owners k (s.handles ++ owns (length s.cells) ∷ [])
            ≡ owners k s.handles + one (length s.cells == k)
        owners_made = count_if-append_one (owner_of k) s.handles (owns (length s.cells))

    -- A handle that is moved from, and one that is written over.
    pub set-owners :
        (s : Store S) (i k : ℕ) (h old : Handle)
        → present impl i s ≡ some old
        → owners k (set s.handles i h) + one (owner_of k old)
          ≡ owners k s.handles + one (owner_of k h)
    set-owners s i k h old e =
        count_if-set (owner_of k) s.handles i h old (present-get_elem? i s old e)

    owner-le :
        (s : Store S) (j k : ℕ) (h : Handle)
        → present impl j s ≡ some h
        → one (owner_of k h) ≤ owners k s.handles
    owner-le s j k h e = count_if-get_elem? (owner_of k) s.handles j h (present-get_elem? j s h e)

    write-Owned :
        (s : Store S) (i : ℕ) (h old : Handle)
        → Owned impl s
        → present impl i s ≡ some old
        → ((k : ℕ) → one (owner_of k h) ≤ owners k s.handles)
        → Owned impl (release impl old (with_handles impl (set s.handles i h) s))
    write-Owned s i h old v e l =
        release-Owned impl closes old _
          (Owned-Almost impl s (set s.handles i h) old h v (λ k. set-owners s i k h old e) l)

    move-Owned :
        (s : Store S) (i : ℕ) (h : Handle)
        → Owned impl s
        → present impl i s ≡ some h
        → Owned impl (with_handles impl (set s.handles i empty ++ h ∷ []) s)
    move-Owned s i h v e = λ k. rw (same k) (v k)
      where
        same : (k : ℕ) → owners k (set s.handles i empty ++ h ∷ []) ≡ owners k s.handles
        same k = omega (
          arith,
          count_if-append_one (owner_of k) (set s.handles i empty) h,
          set-owners s i k empty h e,
        )

    move_assign-Owned :
        (s : Store S) (i j : ℕ) (h old : Handle)
        → Owned impl s
        → present impl i s ≡ some old
        → present impl j s ≡ some h
        → (i == j) ≡ false
        → Owned impl (release impl old (with_handles impl (set (set s.handles j empty) i h) s))
    move_assign-Owned s i j h old v e f n = release-Owned impl closes old _ (
        Owned-Almost impl s (set (set s.handles j empty) i h) old absent v counts
          (λ k. omega arith))
      where
        still_old : get_elem? (set s.handles j empty) i ≡ some old
        still_old = ground (
          arith,
          get_elem?-set s.handles j i empty h (present-get_elem? j s h f),
          present-get_elem? i s old e,
        )

        counts :
            (k : ℕ)
            → owners k (set (set s.handles j empty) i h) + one (owner_of k old)
              ≡ owners k s.handles + one false
        counts k = omega (
          arith,
          count_if-set (owner_of k) (set s.handles j empty) i h old still_old,
          set-owners s j k empty h f,
        )

    target-get_elem? :
        (i : ℕ) (s : Store S) (k : ℕ) (x : S)
        → target impl i s ≡ some (k, x)
        → get_elem? s.cells k ≡ some (live x)
    target-get_elem? i s k x e = ground arith

    call-Owned :
        (s : Store S) (i : ℕ) (f : S → S) (k : ℕ) (x : S)
        → Owned impl s
        → target impl i s ≡ some (k, x)
        → Owned impl (record s { cells = update_cell impl (λ c. live (f x)) k s.cells })
    call-Owned s i f k x v e j =
        rw (get_elem?-update_cell impl (λ c. live (f x)) k s.cells j) (elim (Bool-cases (k == j)) [
          | inl y ↦
              let same : k ≡ j = ground arith in
              let at_j : get_elem? s.cells j ≡ some (live x) =
                rw same at (target-get_elem? i s k x e) in
              rw (y, at_j) (rw at_j at (v j))
          | inr n ↦ rw n (v j)
        ])

    pub step-Owned : (o : Op S) (s : Store S) → Owned impl s → After (step impl o s)
    unfolding step
    step-Owned construct s v = make-Owned s new v
    step-Owned (adopt x) s v = make-Owned s x v
    step-Owned (copy i) s v = elim (Option-cases (present impl i s)) [
      | inl n ↦ rw n tt
      | inr (h, e) ↦ rw e (append-Owned s h v (λ k. owner-le s i k h e))
    ]
    step-Owned (move i) s v = elim (Option-cases (present impl i s)) [
      | inl n ↦ rw n tt
      | inr (h, e) ↦ rw e (move-Owned s i h v e)
    ]
    step-Owned (copy_assign i j) s v = elim (Option-cases (present impl i s)) [
      | inl n ↦ rw n tt
      | inr (old, e) ↦ elim (Option-cases (present impl j s)) [
        | inl n ↦ rw (e, n) tt
        | inr (h, f) ↦ rw (e, f) (write-Owned s i h old v e (λ k. owner-le s j k h f))
      ]
    ]
    step-Owned (move_assign i j) s v = elim (Option-cases (present impl i s)) [
      | inl n ↦ rw n tt
      | inr (old, e) ↦ elim (Option-cases (present impl j s)) [
        | inl n ↦ rw (e, n) tt
        | inr (h, f) ↦ elim (Bool-cases (i == j)) [
          | inl y ↦ rw (e, f, y) v
          | inr n ↦ rw (e, f, n) (move_assign-Owned s i j h old v e f n)
        ]
      ]
    ]
    step-Owned (destroy i) s v = elim (Option-cases (present impl i s)) [
      | inl n ↦ rw n tt
      | inr (old, e) ↦ rw e (write-Owned s i absent old v e (λ k. omega arith))
    ]
    step-Owned (call i f) s v = elim (Option-cases (target impl i s)) [
      | inl n ↦ rw n tt
      | inr ((k, x), e) ↦ rw e (call-Owned s i f k x v e)
    ]

    run-Owned : (os : List (Op S)) (s : Store S) → Owned impl s → After (run impl os s)
    unfolding run
    run-Owned [] s v = v
    run-Owned (o ∷ os) s v = elim (Option-cases (step impl o s)) [
      | inl n ↦ rw n tt
      | inr (t, e) ↦ rw e (run-Owned os t (rw e at (step-Owned o s v)))
    ]

    pub no_objects-Owned : Owned impl no_objects
    no_objects-Owned k = refl

    -- After any constructions, copies, moves, assignments, calls and destructions of `socket`
    -- objects that have a meaning, an implementation is alive exactly as long as it has an owner,
    -- and one that has none left has been closed, by its last owner or by its destructor. The close
    -- of the implementation is taken to close it.
    pub run-no_objects-Owned :
        (os : List (Op S)) (s : Store S) → run impl os no_objects ≡ some s → Owned impl s
    run-no_objects-Owned os s e = rw e at (run-Owned os no_objects no_objects-Owned)
