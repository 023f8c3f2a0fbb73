-- ===== src/SearchResults/Nav/Steps.antt =====
-- The focus of the results page of docs/html/search/search.js over any keys and clicks: what the
-- handlers do to the element that has the focus, one event after the other.
use fiberio.Base.{
  ℕ, zero, suc, ◌+◌, ◌-◌, ◌≡◌, refl, Bool, true, List, [], ◌∷◌, arith, Option-cases, Bool-cases,
  inl, inr, if◌then◌else◌,
}
use fiberio.SearchResults.{
  Display, Row, Focus, nowhere, item, child, search_field, Page, SearchResults, hidden, block,
}
use fiberio.SearchResults.Keys.{KeyEvent}
use fiberio.SearchResults.Nav.{
  nav_next, nav_prev, has_child, shows_children, last_child_loop, last_child, child_count, nav_up,
  nav_down, focus_or, set_children, toggle, nav, nav_child,
}
use fiberio.SearchResults.Nav.Moves.{visible_at, nav_next-IsNext, nav_prev-IsPrev, visible_at-lt}

-- A key event at the element with the focus, or a click that calls `Toggle` on a row.
pub data Act : Type 0 where
  key : KeyEvent → Act
  click : ℕ → Act

abbrev after : Bool × SearchResults × Page → SearchResults × Page
after (_, this, page) = (this, page)

-- The `onkeydown`, `onkeypress` and `onkeyup` of the link with the focus; the others have none here.
abbrev pub on_key : Focus → KeyEvent → SearchResults → Page → SearchResults × Page
on_key (item i) e this page = after (nav e i this page)
on_key (child i j) e this page = after (nav_child e i j this page)
on_key _ e this page = (this, page)

abbrev pub act : Act → SearchResults → Page → SearchResults × Page
act (key e) this page = on_key page.focus e this page
act (click i) this page = (this, record page { rows = toggle page.rows i })

abbrev pub act_all : List Act → SearchResults → Page → SearchResults × Page
act_all [] this page = (this, page)
act_all (a ∷ rest) this page = let (this', page') = act a this page in act_all rest this' page'

-- A row whose link has children on the page is displayed.
abbrev pub Tidy : List Row → Type 0
Tidy rows = (i j : ℕ) → has_child rows i j ≡ true → visible_at rows i ≡ true

-- A focus on a link is on one that the page has, in a row that is displayed.
abbrev pub OnPage : List Row → Focus → Type 0
OnPage rows (item i) = visible_at rows i ≡ true
OnPage rows (child i j) = (visible_at rows i ≡ true) × (has_child rows i j ≡ true)
OnPage rows _ = Unit {0}

visible_at-set_children :
    (rows : List Row) (i j : ℕ) (d : Display)
    → visible_at (set_children rows i d) j ≡ visible_at rows j
unfolding set_children
visible_at-set_children [] i j d = refl
visible_at-set_children (row ∷ rows) zero zero d = ground arith
visible_at-set_children (row ∷ rows) zero (suc j) d = ground arith
visible_at-set_children (row ∷ rows) (suc i) zero d = refl
visible_at-set_children (row ∷ rows) (suc i) (suc j) d = visible_at-set_children rows i j d

has_child-set_children :
    (rows : List Row) (i j m : ℕ) (d : Display)
    → has_child (set_children rows i d) j m ≡ has_child rows j m
unfolding set_children
has_child-set_children [] i j m d = refl
has_child-set_children (row ∷ rows) zero zero m d = ground arith
has_child-set_children (row ∷ rows) zero (suc j) m d = ground arith
has_child-set_children (row ∷ rows) (suc i) zero m d = refl
has_child-set_children (row ∷ rows) (suc i) (suc j) m d = has_child-set_children rows i j m d

OnPage-set_children :
    (rows : List Row) (i : ℕ) (d : Display) (f : Focus)
    → OnPage rows f
    → OnPage (set_children rows i d) f
OnPage-set_children rows i d nowhere h = tt
OnPage-set_children rows i d (item j) h = rw (visible_at-set_children rows i j d) h
OnPage-set_children rows i d (child j m) h =
    rw (visible_at-set_children rows i j d, has_child-set_children rows i j m d) h
OnPage-set_children rows i d search_field h = tt

Tidy-set_children :
    (rows : List Row) (i : ℕ) (d : Display) → Tidy rows → Tidy (set_children rows i d)
Tidy-set_children rows i d t = λ j m c.
    rw (visible_at-set_children rows i j d) (t j m (rw (has_child-set_children rows i j m d) at c))

last_child_loop-OnPage :
    (fuel : ℕ) (rows : List Row) (i n : ℕ) (f : Focus)
    → Tidy rows
    → OnPage rows f
    → OnPage rows (last_child_loop fuel rows i n f)
unfolding last_child_loop
last_child_loop-OnPage zero rows i n f t h = h
last_child_loop-OnPage (suc fuel) rows i n f t h = elim (Bool-cases (has_child rows i n)) [
  | inl c ↦ rw (OnPage, c) (last_child_loop-OnPage fuel rows i (n + 1) (child i n) t (t i n c, c))
  | inr c ↦ rw (OnPage, c) h
]

focus_or-OnPage :
    (rows : List Row) (i : ℕ) (f : Focus)
    → OnPage rows f
    → OnPage rows (focus_or (nav_next rows i) f)
focus_or-OnPage rows i f h = elim (Option-cases (nav_next rows i)) [
  | inl e ↦ rw e h
  | inr (j, e) ↦ let next = rw e at (nav_next-IsNext rows i) in rw e next.1
]

nav_down-OnPage :
    (rows : List Row) (i : ℕ) (f : Focus)
    → Tidy rows
    → OnPage rows f
    → OnPage rows (nav_down rows i f)
unfolding nav_down
nav_down-OnPage rows i f t h = ground (arith, focus_or-OnPage rows (i + 1) f h, t i 0)

nav_up-OnPage :
    (rows : List Row) (i : ℕ) → Tidy rows → visible_at rows i ≡ true → OnPage rows (nav_up rows i)
unfolding nav_up last_child
nav_up-OnPage rows i t v = elim (Option-cases (nav_prev rows i)) [
  | inl e ↦ rw (OnPage, e) tt
  | inr (k, e) ↦
      let found = rw e at (nav_prev-IsPrev rows i (omega (arith, visible_at-lt rows i v))) in
      ground (
        arith,
        found.1,
        last_child_loop-OnPage (suc (child_count rows (i - 1))) rows (i - 1) 0 (item k) t found.1,
      )
]

nav-OnPage :
    (e : KeyEvent) (i : ℕ) (this : SearchResults) (page : Page)
    → Tidy page.rows
    → visible_at page.rows i ≡ true
    → OnPage page.rows page.focus
    → let page' = (nav e i this page).2 in OnPage page'.rows page'.focus
unfolding nav
nav-OnPage e i this page t v h = ground (
  arith,
  nav_up-OnPage page.rows i t v,
  nav_down-OnPage page.rows i page.focus t h,
  OnPage-set_children page.rows i block page.focus h,
  OnPage-set_children page.rows i hidden page.focus h,
)

nav_child-OnPage :
    (e : KeyEvent) (i j : ℕ) (this : SearchResults) (page : Page)
    → Tidy page.rows
    → visible_at page.rows i ≡ true
    → has_child page.rows i j ≡ true
    → OnPage page.rows page.focus
    → let page' = (nav_child e i j this page).2 in OnPage page'.rows page'.focus
unfolding nav_child
nav_child-OnPage e i j this page t v c h =
    ground (arith, focus_or-OnPage page.rows (i + 1) page.focus h)

nav-Tidy :
    (e : KeyEvent) (i : ℕ) (this : SearchResults) (page : Page) (a j : ℕ)
    → Tidy page.rows
    → has_child (nav e i this page).2.rows a j ≡ true
    → visible_at (nav e i this page).2.rows a ≡ true
unfolding nav
nav-Tidy e i this page a j t c = ground (
  arith,
  t a j,
  Tidy-set_children page.rows i block t a j,
  Tidy-set_children page.rows i hidden t a j,
)

nav_child-rows :
    (e : KeyEvent) (i j : ℕ) (this : SearchResults) (page : Page)
    → (nav_child e i j this page).2.rows ≡ page.rows
unfolding nav_child
nav_child-rows e i j this page = ground arith

-- The page is tidy and its focus is on it.
abbrev pub Fine : Page → Type 0
Fine page = Tidy page.rows × OnPage page.rows page.focus

on_key-Fine :
    (f : Focus) (e : KeyEvent) (this : SearchResults) (page : Page)
    → Fine page
    → OnPage page.rows f
    → Fine (on_key f e this page).1
on_key-Fine nowhere e this page (t, h) v = (t, h)
on_key-Fine (item i) e this page (t, h) v =
    (λ a j c. nav-Tidy e i this page a j t c, nav-OnPage e i this page t v h)
on_key-Fine (child i j) e this page (t, h) v =
    (rw (nav_child-rows e i j this page) t, nav_child-OnPage e i j this page t v.0 v.1 h)
on_key-Fine search_field e this page (t, h) v = (t, h)

act-Fine : (a : Act) (this : SearchResults) (page : Page) → Fine page → Fine (act a this page).1
unfolding toggle
act-Fine (key e) this page (t, h) = on_key-Fine page.focus e this page (t, h) h
act-Fine (click i) this page (t, h) =
    let d = if shows_children page.rows i then hidden else block in
    (Tidy-set_children page.rows i d t, OnPage-set_children page.rows i d page.focus h)

-- On a page where each row whose link has children is displayed, any key events at the link with
-- the focus and any clicks that call Toggle keep it so, and keep the focus off links that the page
-- does not have or whose row is not displayed.
pub act_all-OnPage :
    (acts : List Act) (this : SearchResults) (page : Page)
    → Tidy page.rows
    → OnPage page.rows page.focus
    → let (_, page') = act_all acts this page in Tidy page'.rows × OnPage page'.rows page'.focus
act_all-OnPage [] this page t h = (t, h)
act_all-OnPage (a ∷ acts) this page t h =
    let (this', page') = act a this page in
    let (t', h') = act-Fine a this page (t, h) in act_all-OnPage acts this' page' t' h'
