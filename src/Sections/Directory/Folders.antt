-- ===== src/Sections/Directory/Folders.antt =====
-- toggleFolder of docs/html/dynsections.js, once and twice on a folder.
use fiberio.Base.{
  ◌≡◌, refl, Bool, true, false, not, ◌&&◌, List, [], ◌∷◌, ◌++◌, map, if◌then◌else◌, Text, codes,
  text_eq, starts_with, arith, ap, sym, ◌∙◌,
}
use mathlib.Core.List.{map-append}
use fiberio.SearchId.Prefix.{All}
use fiberio.Sections.Directory.{
  Row, stripes, update_stripes, is_child, first_child_visible, hide_below, show_child, toggle_row,
  toggle_at, toggle_folder,
}

-- What a reader sees of a row: which it is, and whether it is visible.
abbrev pub view : Row → Text × Bool
view r = (r.id, r.visible)

module _ (p : Text) where
  abbrev pub hidden_below : Text × Bool → Text × Bool
  hidden_below (i, v) = (i, v && not (starts_with p i))

  abbrev shown_child : Text × Bool → Text × Bool
  shown_child (i, v) = (i, if is_child p i then true else v)

  -- The rows directly below are visible, other rows below are not, and the rest is as it was.
  abbrev pub reopened : Text × Bool → Text × Bool
  reopened (i, v) = (i, if is_child p i then true else v && not (starts_with p i))

  -- The code on views.
  first_of : List (Text × Bool) → Bool
  first_of [] = false
  first_of ((i, v) ∷ rest) = if is_child p i then v else first_of rest

  row_of : Text × Bool → List (Text × Bool) → List (Text × Bool)
  row_of c rest = c ∷ (if first_of rest then map hidden_below rest else map shown_child rest)

  at_of : List (Text × Bool) → List (Text × Bool)
  at_of [] = []
  at_of ((i, v) ∷ rest) = if text_eq i p then row_of (i, v) rest else (i, v) ∷ at_of rest

  view-stripes : (b : Bool) (rows : List Row) → map view (stripes b rows) ≡ map view rows
  unfolding stripes
  view-stripes b [] = refl
  view-stripes b (r ∷ rows) =
      ap (λ (t : List (Text × Bool)). view r ∷ t)
        (view-stripes (if r.visible then not b else b) rows)

  first_of-view : (rows : List Row) → first_child_visible p rows ≡ first_of (map view rows)
  unfolding first_child_visible first_of
  first_of-view [] = refl
  first_of-view (r ∷ rows) = rw (first_of-view rows) refl

  view-hide_below :
      (rows : List Row) → map view (map (hide_below p) rows) ≡ map hidden_below (map view rows)
  unfolding hide_below
  view-hide_below [] = refl
  view-hide_below (r ∷ rows) = ground (arith, view-hide_below rows)

  view-show_child :
      (rows : List Row) → map view (map (show_child p) rows) ≡ map shown_child (map view rows)
  unfolding show_child
  view-show_child [] = refl
  view-show_child (r ∷ rows) = ground (arith, view-show_child rows)

  view-toggle_row :
      (c : Row) (rows : List Row) → map view (toggle_row p c rows) ≡ row_of (view c) (map view rows)
  unfolding toggle_row row_of
  view-toggle_row c rows =
      ground (arith, first_of-view rows, view-hide_below rows, view-show_child rows)

  view-toggle_at : (rows : List Row) → map view (toggle_at p rows) ≡ at_of (map view rows)
  unfolding toggle_at at_of
  view-toggle_at [] = refl
  view-toggle_at (r ∷ rows) = ground (arith, view-toggle_row r rows, view-toggle_at rows)

  -- No row of the list is the clicked one.
  abbrev pub Others : List Row → Type 0
  Others = All (λ (r : Row). text_eq r.id p ≡ false)

  -- What counts as a row directly below is also a row below: their ids are written in one case.
  abbrev pub OneCase : List Row → Type 0
  OneCase = All (λ (r : Row). is_child p r.id ≡ true → starts_with p r.id ≡ true)

  at_of-append :
      (before : List Row) (c : Text × Bool) (rest : List (Text × Bool))
      → Others before
      → text_eq c.0 p ≡ true
      → at_of (map view before ++ c ∷ rest) ≡ map view before ++ row_of c rest
  unfolding at_of
  at_of-append [] (i, v) rest h e = rw e refl
  at_of-append (r ∷ before) c rest h e = rw (h.0, at_of-append before c rest h.1 e) refl

  first_of-hidden :
      (rows : List Row) → OneCase rows → first_of (map hidden_below (map view rows)) ≡ false
  unfolding first_of
  first_of-hidden [] h = refl
  first_of-hidden (r ∷ rows) h = ground (arith, first_of-hidden rows)

  shown-hidden :
      (rows : List Row)
      → map shown_child (map hidden_below (map view rows)) ≡ map reopened (map view rows)
  shown-hidden [] = refl
  shown-hidden (r ∷ rows) = ground (arith, shown-hidden rows)

row_of-open :
    (p : Text) (x : Text × Bool) (rest : List (Text × Bool))
    → first_of p rest ≡ true
    → row_of p x rest ≡ x ∷ map (hidden_below p) rest
unfolding row_of
row_of-open p x rest h = rw h refl

row_of-closed :
    (p : Text) (x : Text × Bool) (rest : List (Text × Bool))
    → first_of p rest ≡ false
    → row_of p x rest ≡ x ∷ map (shown_child p) rest
unfolding row_of
row_of-closed p x rest h = rw h refl

-- The id of the row of a folder.
abbrev pub row_id : Text → Text
row_id id = codes "row_" ++ id

module _ (id : Text) (before : List Row) (c : Row) (after : List Row) where
  view-toggle_folder :
      (rows : List Row)
      → map view (toggle_folder id rows) ≡ at_of (codes "row_" ++ id) (map view rows)
  unfolding toggle_folder update_stripes
  view-toggle_folder rows =
      view-stripes (codes "row_" ++ id) true _ ∙ view-toggle_at (codes "row_" ++ id) rows

  -- On a folder whose first row directly below is visible, `toggleFolder` hides the rows after it
  -- whose ids begin with its own and no other; a second call then shows the rows directly below and
  -- leaves the rows deeper down hidden. The clicked row is the first with its id, and the ids of
  -- the rows directly below begin with its own, case included.
  pub toggle_folder_twice :
      Others (row_id id) before
      → text_eq c.id (row_id id) ≡ true
      → first_child_visible (row_id id) after ≡ true
      → OneCase (row_id id) after
      → (map view (toggle_folder id (before ++ c ∷ after))
          ≡ map view before ++ view c ∷ map (hidden_below (row_id id)) (map view after))
        × (map view (toggle_folder id (toggle_folder id (before ++ c ∷ after)))
            ≡ map view before ++ view c ∷ map (reopened (row_id id)) (map view after))
  toggle_folder_twice h e v o = (once, twice)
    where
      p : Text
      p = row_id id

      once :
          map view (toggle_folder id (before ++ c ∷ after))
          ≡ map view before ++ view c ∷ map (hidden_below p) (map view after)
      once =
          view-toggle_folder (before ++ c ∷ after)
          ∙ ap (at_of p) (map-append view before (c ∷ after))
          ∙ at_of-append p before (view c) (map view after) h e
          ∙ ap (λ (t : List (Text × Bool)). map view before ++ t)
              (row_of-open p (view c) (map view after) (sym (first_of-view p after) ∙ v))

      twice :
          map view (toggle_folder id (toggle_folder id (before ++ c ∷ after)))
          ≡ map view before ++ view c ∷ map (reopened p) (map view after)
      twice =
          view-toggle_folder (toggle_folder id (before ++ c ∷ after))
          ∙ ap (at_of p) once
          ∙ at_of-append p before (view c) (map (hidden_below p) (map view after)) h e
          ∙ ap (λ (t : List (Text × Bool)). map view before ++ t)
              (row_of-closed p (view c) (map (hidden_below p) (map view after))
                  (first_of-hidden p after o)
                ∙ ap (λ (t : List (Text × Bool)). view c ∷ t) (shown-hidden p after))
