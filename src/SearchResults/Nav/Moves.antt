-- ===== src/SearchResults/Nav/Moves.antt =====
-- Where the keyboard takes the focus: the nearest visible row, and what goes wrong with Up.
use native.Mathlib.Numerals.{sub-one}
use fiberio.Base.{
  ℕ, zero, suc, ◌+◌, ◌≡◌, ◌≤◌, ◌<◌, refl, Bool, true, false, List, [], ◌∷◌, arith, ltb, Option,
  none, some, length, get_elem?, Option-cases, Bool-cases, inl, inr, ap, ◌∙◌,
}
use fiberio.SearchResults.{Row, Focus, item, child}
use fiberio.SearchResults.Nav.{
  is_visible, nav_next_loop, nav_next, nav_prev, has_child, shows_children, last_child_loop,
  last_child, child_count, nav_up, nav_down,
}

-- `Item<i>` is on the page, and its row is displayed.
abbrev pub visible_at : List Row → ℕ → Bool
visible_at rows i = elim (get_elem? rows i) [ none ↦ false | some row ↦ is_visible row ]

-- No visible row from `a` up to `b`, `b` left out.
abbrev pub NoneVisible : List Row → ℕ → ℕ → Type 0
NoneVisible rows a b = (k : ℕ) → a ≤ k → k < b → visible_at rows k ≡ false

-- The nearest visible row from `index` on, if there is one.
abbrev pub IsNext : List Row → ℕ → Option ℕ → Type 0
IsNext rows index none = (k : ℕ) → index ≤ k → visible_at rows k ≡ false
IsNext rows index (some j) = (index ≤ j) × (visible_at rows j ≡ true) × NoneVisible rows index j

abbrev pub IsPrev : List Row → ℕ → Option ℕ → Type 0
IsPrev rows bound none = NoneVisible rows 0 bound
IsPrev rows bound (some j) =
    (j < bound) × (visible_at rows j ≡ true) × NoneVisible rows (suc j) bound

get_elem?-past :
    (rows : List Row) (i k : ℕ) → get_elem? rows i ≡ none → i ≤ k → get_elem? rows k ≡ none
get_elem?-past [] i k e h = refl
get_elem?-past (r ∷ rows) zero k e h = absurd (cc)
get_elem?-past (r ∷ rows) (suc i) zero e h = absurd (omega arith)
get_elem?-past (r ∷ rows) (suc i) (suc k) e h = get_elem?-past rows i k e (omega arith)

get_elem?-lt : (rows : List Row) (i : ℕ) {row : Row} → get_elem? rows i ≡ some row → i < length rows
get_elem?-lt [] i e = absurd (cc)
get_elem?-lt (r ∷ rows) zero e = omega arith
get_elem?-lt (r ∷ rows) (suc i) e = omega (arith, get_elem?-lt rows i e)

IsNext-step :
    (rows : List Row) (index : ℕ) (o : Option ℕ)
    → visible_at rows index ≡ false
    → IsNext rows (index + 1) o
    → IsNext rows index o
IsNext-step rows index none e h = λ k le. ground (arith, h k)
IsNext-step rows index (some j) e h = (omega arith, h.1, λ k p q. ground (arith, h.2 k))

module _ (fuel : ℕ) (rows : List Row) (index : ℕ) where
  nav_next_loop-past : get_elem? rows index ≡ none → nav_next_loop (suc fuel) rows index ≡ none
  unfolding nav_next_loop
  nav_next_loop-past e = ground arith

  nav_next_loop-visible :
      visible_at rows index ≡ true → nav_next_loop (suc fuel) rows index ≡ some index
  unfolding nav_next_loop
  nav_next_loop-visible e = ground arith

  nav_next_loop-hidden :
      (row : Row)
      → get_elem? rows index ≡ some row
      → is_visible row ≡ false
      → nav_next_loop (suc fuel) rows index ≡ nav_next_loop fuel rows (index + 1)
  unfolding nav_next_loop
  nav_next_loop-hidden row e v = ground arith

nav_next_loop-IsNext :
    (fuel : ℕ) (rows : List Row) (index : ℕ)
    → length rows < fuel + index
    → 0 < fuel
    → IsNext rows index (nav_next_loop fuel rows index)
nav_next_loop-IsNext zero rows index h p = absurd (omega arith)
nav_next_loop-IsNext (suc fuel) rows index h p = elim (Option-cases (get_elem? rows index)) [
  | inl e ↦
      rw (nav_next_loop-past fuel rows index e)
        (λ k le. rw (get_elem?-past rows index k e le, visible_at) refl)
  | inr (row, e) ↦ elim (Bool-cases (is_visible row)) [
    | inl v ↦
        rw (nav_next_loop-visible fuel rows index (ground arith))
          (omega arith, ground arith, λ k p q. absurd (omega arith))
    | inr v ↦ rw (nav_next_loop-hidden fuel rows index row e v) (
        IsNext-step rows index _ (ground arith) (
          nav_next_loop-IsNext fuel rows (index + 1) (omega arith)
            (omega (arith, get_elem?-lt rows index e))))
  ]
]

-- NavNext finds the first visible row from an index on, and null exactly if there is none.
pub nav_next-IsNext : (rows : List Row) (index : ℕ) → IsNext rows index (nav_next rows index)
unfolding nav_next
nav_next-IsNext rows index =
    nav_next_loop-IsNext (suc (length rows)) rows index (omega arith) (omega arith)

IsPrev-step :
    (rows : List Row) (index : ℕ) (o : Option ℕ)
    → visible_at rows index ≡ false
    → IsPrev rows index o
    → IsPrev rows (suc index) o
IsPrev-step rows index none e h = λ k le lt. ground (arith, h k)
IsPrev-step rows index (some j) e h = (omega arith, h.1, λ k p q. ground (arith, h.2 k))

nav_prev-zero : (rows : List Row) → nav_prev rows 0 ≡ none
unfolding nav_prev
nav_prev-zero rows = refl

nav_prev-visible :
    (rows : List Row) (i : ℕ) → visible_at rows i ≡ true → nav_prev rows (suc i) ≡ some i
unfolding nav_prev
nav_prev-visible rows i e = ground arith

nav_prev-hidden :
    (rows : List Row) (i : ℕ) (row : Row)
    → get_elem? rows i ≡ some row
    → visible_at rows i ≡ false
    → nav_prev rows (suc i) ≡ nav_prev rows i
unfolding nav_prev
nav_prev-hidden rows i row e v = ground arith

get_elem?-some :
    (rows : List Row) (i : ℕ) → i < length rows → (row : Row) × (get_elem? rows i ≡ some row)
get_elem?-some [] i h = absurd (omega arith)
get_elem?-some (r ∷ rows) zero h = (r, refl)
get_elem?-some (r ∷ rows) (suc i) h = get_elem?-some rows i (omega arith)

-- NavPrev finds the last visible row below a bound that lies on the page, and null exactly if there
-- is none.
pub nav_prev-IsPrev :
    (rows : List Row) (bound : ℕ) → bound ≤ length rows → IsPrev rows bound (nav_prev rows bound)
nav_prev-IsPrev rows zero h = rw (nav_prev-zero rows) (λ k p q. absurd (omega arith))
nav_prev-IsPrev rows (suc i) h = elim (Bool-cases (visible_at rows i)) [
  | inl v ↦ rw (nav_prev-visible rows i v) (omega arith, v, λ k p q. absurd (omega arith))
  | inr v ↦
      rw (nav_prev-hidden rows i (get_elem?-some rows i h).0 (get_elem?-some rows i h).1 v)
        (IsPrev-step rows i _ v (nav_prev-IsPrev rows i (omega arith)))
]

IsPrev-unique :
    (rows : List Row) (bound i : ℕ) (o : Option ℕ)
    → IsPrev rows bound o
    → IsPrev rows bound (some i)
    → o ≡ some i
IsPrev-unique rows bound i none h k = ground (arith, h i)
IsPrev-unique rows bound i (some j) h k = ground (arith, h.2 i, k.2 j)

pub visible_at-lt : (rows : List Row) (i : ℕ) → visible_at rows i ≡ true → i < length rows
visible_at-lt rows i v = elim (Option-cases (get_elem? rows i)) [
  | inl e ↦ absurd (ground arith)
  | inr (row, e) ↦ get_elem?-lt rows i e
]

-- No row below `b` shows its children.
abbrev Folded : List Row → Type 0
Folded rows = (i : ℕ) → shows_children rows i ≡ false

-- Up undoes Down: while no children are shown, Down from a visible row to row `j` and then Up leads
-- back.
nav_up-nav_down :
    (rows : List Row) (i j : ℕ) (focus : Focus)
    → Folded rows
    → visible_at rows i ≡ true
    → nav_next rows (i + 1) ≡ some j
    → (nav_down rows i focus ≡ item j) × (nav_up rows j ≡ item i)
unfolding nav_up nav_down
nav_up-nav_down rows i j focus f v e =
    (ground (arith, f i), rw (back, nav_up) (ground (arith, f i)))
  where
    next : IsNext rows (i + 1) (some j)
    next = rw e at (nav_next-IsNext rows (i + 1))

    back : nav_prev rows j ≡ some i
    back =
        IsPrev-unique rows j i (nav_prev rows j)
          (nav_prev-IsPrev rows j (omega (arith, visible_at-lt rows j next.1)))
          (omega (arith, next.0), v, λ k p q. next.2 k (omega arith) q)

has_child-ltb : (rows : List Row) (i j : ℕ) → has_child rows i j ≡ ltb j (child_count rows i)
has_child-ltb rows i j = ground arith

module _ (fuel : ℕ) (rows : List Row) (i m : ℕ) (focus : Focus) where
  last_child_loop-more :
      m < child_count rows i
      → last_child_loop (suc fuel) rows i m focus ≡ last_child_loop fuel rows i (m + 1) (child i m)
  unfolding last_child_loop
  last_child_loop-more h = ground (arith, has_child-ltb rows i m)

  last_child_loop-done : child_count rows i ≤ m → last_child_loop (suc fuel) rows i m focus ≡ focus
  unfolding last_child_loop
  last_child_loop-done h = ground (arith, has_child-ltb rows i m)

last_child_loop-eq :
    (fuel : ℕ) (rows : List Row) (i m r : ℕ) (focus : Focus)
    → child_count rows i ≡ m + suc r
    → suc r < fuel
    → last_child_loop fuel rows i m focus ≡ child i (m + r)
last_child_loop-eq zero rows i m r focus e h = absurd (omega arith)
last_child_loop-eq (suc zero) rows i m r focus e h = absurd (omega arith)
last_child_loop-eq (suc (suc fuel)) rows i m zero focus e h =
    last_child_loop-more (suc fuel) rows i m focus (omega arith)
    ∙ last_child_loop-done fuel rows i (m + 1) (child i m) (omega arith)
    ∙ ap (child i) (omega arith)
last_child_loop-eq (suc fuel) rows i m (suc r) focus e h =
    last_child_loop-more fuel rows i m focus (omega arith)
    ∙ last_child_loop-eq fuel rows i (m + 1) r (child i m) (omega arith) (omega arith)
    ∙ ap (child i) (omega arith)

-- Up, where the row that NavPrev finds shows its children and the row directly above has children:
-- the focus goes to the last child of the row directly above, whichever row was found.
nav_up-last_child :
    (rows : List Row) (i k n : ℕ)
    → nav_prev rows (suc i) ≡ some k
    → shows_children rows k ≡ true
    → child_count rows i ≡ suc n
    → nav_up rows (suc i) ≡ child i n
unfolding nav_up last_child
nav_up-last_child rows i k n e s c =
    rw (e, nav_up, s)
      (rw sub-one (
        (last_child_loop-eq (suc (child_count rows i)) rows i 0 n (item k) (omega arith)
          (omega arith))
        ∙ ap (child i) (omega arith)))
