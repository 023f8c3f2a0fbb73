-- ===== src/SearchResults/Nav/Toggle.antt =====
-- What Toggle does to the children that the rows show.
use fiberio.Base.{
  ℕ, zero, suc, ◌≡◌, Bool, true, false, not, ◌&&◌, List, [], ◌∷◌, ◌==◌, if◌then◌else◌, none, some,
  arith,
}
use fiberio.SearchResults.{Display, hidden, block, is_block, Row}
use fiberio.SearchResults.Nav.{children_at, shows_children, set_children, toggle}

-- Whether `Item<i>` is on the page and has several results.
abbrev pub has_children : List Row → ℕ → Bool
has_children rows i = elim (children_at rows i) [ none ↦ false | some c ↦ true ]

shows_children-set_children :
    (rows : List Row) (i j : ℕ) (d : Display)
    → shows_children (set_children rows i d) j
      ≡ (if (i == j) && has_children rows i then is_block d else shows_children rows j)
unfolding set_children
shows_children-set_children [] i j d = ground arith
shows_children-set_children (row ∷ rows) zero zero d = ground arith
shows_children-set_children (row ∷ rows) zero (suc j) d = ground arith
shows_children-set_children (row ∷ rows) (suc i) zero d = ground arith
shows_children-set_children (row ∷ rows) (suc i) (suc j) d =
    ground (arith, shows_children-set_children rows i j d)

-- Toggle on a row turns over whether it shows its children, if it has any, and changes that of no
-- other row.
shows_children-toggle :
    (rows : List Row) (i j : ℕ)
    → shows_children (toggle rows i) j ≡ (
        if (i == j) && has_children rows i
        then not (shows_children rows j)
        else shows_children rows j)
unfolding toggle
shows_children-toggle rows i j =
    ground (
      arith,
      shows_children-set_children rows i j (if shows_children rows i then hidden else block),
    )
