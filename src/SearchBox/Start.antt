-- ===== src/SearchBox/Start.antt =====
-- init_search of docs/html/search/search.js, and the tables of docs/html/search/searchdata.js.
use fiberio.Base.{
  ℕ, ◌+◌, ◌≡◌, refl, true, false, List, [], ◌∷◌, ◌++◌, map, Text, codes, length, arith, ap, ◌∙◌,
}
use fiberio.SearchBox.{SearchBox, SelectChild, Site, Run, state_of}
use fiberio.SearchBox.Geometry.{Layout}
use fiberio.SearchBox.Actions.{select_item_count, select_item_set, search, open_popup}
use fiberio.SearchBox.Events.{on_select_item}
use fiberio.SearchBox.Selection.{marks, mark_only, marks-select_item_set}

-- `indexSectionsWithContent`, `indexSectionNames` and `indexSectionLabels`, in the order of their keys.
abbrev pub index_sections_with_content : List Text
index_sections_with_content =
    codes "abcdefgilorsuw~"
    ∷ codes "ais"
    ∷ codes "f"
    ∷ codes "aefis"
    ∷ codes "abcgilorsuw~"
    ∷ codes "d"
    ∷ codes "s"
    ∷ codes "o"
    ∷ []

abbrev pub index_section_names : List Text
index_section_names =
    codes "all"
    ∷ codes "classes"
    ∷ codes "namespaces"
    ∷ codes "files"
    ∷ codes "functions"
    ∷ codes "variables"
    ∷ codes "typedefs"
    ∷ codes "pages"
    ∷ []

abbrev pub index_section_labels : List Text
index_section_labels =
    codes "All"
    ∷ codes "Classes"
    ∷ codes "Namespaces"
    ∷ codes "Files"
    ∷ codes "Functions"
    ∷ codes "Variables"
    ∷ codes "Typedefs"
    ∷ codes "Pages"
    ∷ []

-- A link of class `SelectItem` with its mark empty; its label is only shown, and a click on it calls
-- `OnSelectItem` with its number.
abbrev pub link : Text → SelectChild
link label = record { is_item = true; marked = false }

-- `init_search()`: a link for each label, and the first is selected.
unfoldable pub init_search : Site → Layout → List Text → SearchBox → Run
init_search site l labels s =
    on_select_item site l 0 (record s { select_children = s.select_children ++ map link labels })

search-select_children :
    (site : Site) (l : Layout) (s : SearchBox)
    → ((state_of (search site l s)).select_children ≡ s.select_children)
      × ((state_of (search site l s)).search_index ≡ s.search_index)
unfolding search open_popup
search-select_children site l s = ground arith

on_select_item-select_children :
    (site : Site) (l : Layout) (id : ℕ) (s : SearchBox)
    → ((state_of (on_select_item site l id s)).select_children
        ≡ select_item_set id 0 s.select_children)
      × ((state_of (on_select_item site l id s)).search_index ≡ id)
unfolding on_select_item
on_select_item-select_children site l id s = ground (
  arith,
  search-select_children site l
      (record s { search_index = id; select_children = select_item_set id 0 s.select_children }),
)

select_item_count-link :
    (cs : List SelectChild) (labels : List Text)
    → select_item_count (cs ++ map link labels) ≡ select_item_count cs + length labels
unfolding select_item_count
select_item_count-link [] [] = refl
select_item_count-link [] (t ∷ labels) = omega (arith, select_item_count-link [] labels)
select_item_count-link (c ∷ cs) labels = ground (arith, select_item_count-link cs labels)

-- On a filter menu without entries, `init_search` makes one for each label and marks the first and
-- no other, and the index is 0, whatever the search that it starts does.
init_search-marks :
    (site : Site) (l : Layout) (labels : List Text) (s : SearchBox)
    → select_item_count s.select_children ≡ 0
    → let s' = state_of (init_search site l labels s) in
      (select_item_count s'.select_children ≡ length labels)
      × (marks s'.select_children ≡ mark_only 0 0 (length labels))
      × (s'.search_index ≡ 0)
unfolding init_search
init_search-marks site l labels s h =
    rw
      (
        (on_select_item-select_children site l 0 filled).0,
        (on_select_item-select_children site l 0 filled).1,
      )
      (
        (marks-select_item_set 0 0 filled.select_children).1 ∙ all,
        (marks-select_item_set 0 0 filled.select_children).0 ∙ ap (mark_only 0 0) all,
        refl,
      )
  where
    filled : SearchBox
    filled = record s { select_children = s.select_children ++ map link labels }

    all : select_item_count filled.select_children ≡ length labels
    all = omega (arith, select_item_count-link s.select_children labels, h)
