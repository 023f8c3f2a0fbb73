-- ===== src/SearchResults/Nav.antt =====
-- The keyboard navigation of SearchResults: NavNext, NavPrev, Toggle, Nav and NavChild.
pub mod Moves
pub mod Steps
pub mod Toggle
use fiberio.Base.{
  ℕ, zero, suc, ◌+◌, ◌-◌, ◌≡◌, refl, Bool, true, false, not, ◌&&◌, ◌||◌, List, [], ◌∷◌, arith, ltb,
  ◌==◌, if◌then◌else◌, Option, none, some, length, get_elem?,
}
use fiberio.SearchResults.{
  Display, unset, hidden, block, inline, is_block, Children, Row, Focus, nowhere, item, child,
  search_field, Page, SearchResults,
}
use fiberio.SearchResults.Keys.{KeyEvent, process_keys}

-- `focusItem.parentNode.parentNode.style.display=='block'` of `Item<i>`.
abbrev pub is_visible : Row → Bool
is_visible row = is_block row.display

-- The loop of NavNext from `Item<index>`; `none` is null. One round for each unit of fuel.
nav_next_loop : ℕ → List Row → ℕ → Option ℕ
nav_next_loop zero rows index = none
nav_next_loop (suc fuel) rows index = elim (get_elem? rows index) [
  | none ↦ none
  | some row ↦ elim (is_visible row) [
    | true ↦ some index
    | false ↦ nav_next_loop fuel rows (index + 1)
  ]
]

-- No index past the last row is looked up twice, so that one round more than rows is enough.
unfoldable pub nav_next : List Row → ℕ → Option ℕ
unfolding nav_next_loop
nav_next rows index = nav_next_loop (suc (length rows)) rows index

-- NavPrev from `Item<bound - 1>`: the index may be -1, for which there is no element.
unfoldable pub nav_prev : List Row → ℕ → Option ℕ
nav_prev rows zero = none
nav_prev rows (suc index) = elim (get_elem? rows index) [
  | none ↦ none
  | some row ↦ elim (is_visible row) [ true ↦ some index | false ↦ nav_prev rows index ]
]

abbrev pub children_at : List Row → ℕ → Option Children
children_at rows i = elim (get_elem? rows i) [ none ↦ none | some row ↦ row.children ]

-- Whether `Item<i>_c<j>` is on the page.
abbrev pub has_child : List Row → ℕ → ℕ → Bool
has_child rows i j = elim (children_at rows i) [ none ↦ false | some c ↦ ltb j c.count ]

abbrev pub shows_children : List Row → ℕ → Bool
shows_children rows i = elim (children_at rows i) [ none ↦ false | some c ↦ is_block c.shown ]

-- The search for the last child of `Item<i>`: the focus so far, and the next `n` to look up.
last_child_loop : ℕ → List Row → ℕ → ℕ → Focus → Focus
last_child_loop zero rows i n focus = focus
last_child_loop (suc fuel) rows i n focus = elim (has_child rows i n) [
  | true ↦ last_child_loop fuel rows i (n + 1) (child i n)
  | false ↦ focus
]

abbrev pub child_count : List Row → ℕ → ℕ
child_count rows i = elim (children_at rows i) [ none ↦ 0 | some c ↦ c.count ]

unfoldable pub last_child : List Row → ℕ → Focus → Focus
unfolding last_child_loop
last_child rows i focus = last_child_loop (suc (child_count rows i)) rows i 0 focus

-- Up from `Item<i>`. The last child is looked up under `newIndex`, which is `i - 1`, and not under
-- the item that NavPrev found.
unfoldable pub nav_up : List Row → ℕ → Focus
nav_up rows i = elim (nav_prev rows i) [
  | none ↦ search_field
  | some k ↦ if shows_children rows k then last_child rows (i - 1) (item k) else item k
]

abbrev pub focus_or : Option ℕ → Focus → Focus
focus_or none focus = focus
focus_or (some k) focus = item k

-- Down from `Item<i>`; with nothing below, the focus stays.
unfoldable pub nav_down : List Row → ℕ → Focus → Focus
nav_down rows i focus =
    if shows_children rows i && has_child rows i 0
    then child i 0
    else focus_or (nav_next rows (i + 1)) focus

-- Display of the `SRChildren` of `Item<i>`, if it has one.
unfoldable pub set_children : List Row → ℕ → Display → List Row
set_children [] i d = []
set_children (row ∷ rows) zero d = elim row.children [
  | none ↦ row ∷ rows
  | some c ↦ record row { children = some (record c { shown = d }) } ∷ rows
]
set_children (row ∷ rows) (suc i) d = row ∷ set_children rows i d

-- `Toggle(id)` of the row of `Item<i>`.
unfoldable pub toggle : List Row → ℕ → List Row
toggle rows i = set_children rows i (if shows_children rows i then hidden else block)

abbrev close_results : Page → Page
close_results page = record page { focus = search_field; close_calls = suc page.close_calls }

-- `Nav(evt, itemIndex)`: the returned Boolean, the object and the page.
unfoldable pub nav : KeyEvent → ℕ → SearchResults → Page → Bool × SearchResults × Page
nav e i this page =
    let (acts, held) = process_keys e this in
    if e.key_code == 13
    then (true, this, page)
    else if not acts
    then (false, held, page)
    else if held.last_key == 38
    then (false, held, record page { focus = nav_up page.rows i })
    else if held.last_key == 40
    then (false, held, record page { focus = nav_down page.rows i page.focus })
    else if held.last_key == 39
    then (false, held, record page { rows = set_children page.rows i block })
    else if held.last_key == 37
    then (false, held, record page { rows = set_children page.rows i hidden })
    else if held.last_key == 27
    then (false, held, close_results page)
    else (held.last_key == 13, held, page)

-- `NavChild(evt, itemIndex, childIndex)`.
unfoldable pub nav_child : KeyEvent → ℕ → ℕ → SearchResults → Page → Bool × SearchResults × Page
nav_child e i j this page =
    let (acts, held) = process_keys e this in
    if e.key_code == 13
    then (true, this, page)
    else if not acts
    then (false, held, page)
    else if held.last_key == 38
    then (false, held, record page { focus = if ltb 0 j then child i (j - 1) else item i })
    else if held.last_key == 40
    then (
      false,
      held,
      record page {
        focus =
            if has_child page.rows i (j + 1)
            then child i (j + 1)
            else focus_or (nav_next page.rows (i + 1)) page.focus;
      },
    )
    else if held.last_key == 27
    then (false, held, close_results page)
    else (held.last_key == 13, held, page)
