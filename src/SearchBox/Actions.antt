-- ===== src/SearchBox/Actions.antt =====
-- The methods of SearchBox that act: Activate, the windows, SelectItemSet, Search, OnSelectItem.
use fiberio.Base.{
  ℕ, suc, Bool, true, false, ◌&&◌, ◌||◌, List, [], ◌∷◌, ◌++◌, Option, none, some, leb, ◌==◌,
  if◌then◌else◌, Text, codes, text_eq, starts_with, get_elem?, take,
}
use fiberio.SearchId.{to_hex}
use fiberio.SearchResults.{hidden, block, inline, is_block}
use fiberio.SearchResults.Search.{strip_leading}
use fiberio.SearchBox.{
  SearchBox, SelectChild, Site, BoxFocus, search_field, Run, returns, throws, clear_timeout,
  set_timeout, run_close_selection, close_selection_timeout,
}
use fiberio.SearchBox.Geometry.{Layout, select_place, popup_place}

-- `Activate(isActive)`
unfoldable pub activate : Bool → SearchBox → SearchBox
activate is_active s =
    if is_active || is_block s.popup_display
    then if text_eq s.field_value s.search_label
      then record s { box_active = true; field_value = []; search_active = true }
      else record s { box_active = true }
    else record s {
      box_active = false;
      field_value = s.search_label;
      search_active = false;
      last_search_value = [];
      last_results_page = [];
    }

abbrev pub is_field : BoxFocus → Bool
is_field search_field = true
is_field _ = false

-- `focus()` and `blur()`: the field's `onfocus` and `onblur` attributes, which initMenu writes, call
-- `OnSearchFieldFocus`, that is `Activate`.
unfoldable pub move_focus : BoxFocus → SearchBox → SearchBox
move_focus target s =
    let moved = record s { focus = target } in
    if is_field s.focus
    then if is_field target then moved else activate false moved
    else if is_field target
    then activate true moved
    else moved

-- `CloseResultsWindow()`
unfoldable pub close_results_window : SearchBox → SearchBox
close_results_window s =
    activate false (record s { popup_display = hidden; close_display = hidden })

-- `CloseSelectionWindow()`
unfoldable pub close_selection_window : SearchBox → SearchBox
close_selection_window s = record s { select_display = hidden }

-- `OnSearchSelectShow()`
unfoldable pub on_search_select_show : Layout → SearchBox → SearchBox
on_search_select_show l s =
    let shown = record s {
      select_display = block;
      select_place = select_place s.inside_frame l s.select_place;
    } in
    if s.hide_timeout == 0
    then shown
    else record (clear_timeout s.hide_timeout shown) { hide_timeout = 0 }

-- `OnSearchSelectHide()`
unfoldable pub on_search_select_hide : SearchBox → SearchBox
on_search_select_hide s = record (set_timeout run_close_selection close_selection_timeout s) {
  hide_timeout = s.next_timer;
}

-- `SelectItemCount()`
unfoldable pub select_item_count : List SelectChild → ℕ
select_item_count [] = 0
select_item_count (c ∷ cs) = let rest = select_item_count cs in if c.is_item then suc rest else rest

-- The loop of `SelectItemSet(id)`, with the number `j` of items so far.
unfoldable pub select_item_set : ℕ → ℕ → List SelectChild → List SelectChild
select_item_set id j [] = []
select_item_set id j (c ∷ cs) =
    let next = if c.is_item then suc j else j in
    let rest = select_item_set id next cs in
    (if c.is_item then record c { marked = j == id } else c) ∷ rest

-- `indexOf`, from position `i` on.
unfoldable pub index_of : Text → ℕ → Text → Option ℕ
index_of pat i [] = if text_eq pat [] then some i else none
index_of pat i (c ∷ s) =
    let rest = index_of pat (suc i) s in if starts_with pat (c ∷ s) then some i else rest

-- `0xD800 <= code && code <= 0xDBFF` for the first code unit; there is none in an empty text.
abbrev pub is_high_surrogate : Text → Bool
is_high_surrogate [] = false
is_high_surrogate (c ∷ _) = leb 0xd800 c && leb c 0xdbff

-- The results window is opened and placed, unless it is open.
unfoldable pub open_popup : Layout → SearchBox → SearchBox
open_popup l s = if is_block s.popup_display then s else record s {
  close_display = inline;
  popup_display = block;
  popup_place = popup_place s.inside_frame l s.popup_place;
}

module _ (site : Site) where
  open site use {to_lower_case, escape, exceeds_one, sections_with_content, section_names}

  -- `idxChar`
  unfoldable pub index_char : Text → Text
  index_char search_value =
      if is_high_surrogate (to_lower_case search_value) && exceeds_one search_value
      then take 2 search_value
      else to_lower_case (take 1 search_value)

  abbrev pub section_name : ℕ → Text
  section_name i = elim (get_elem? section_names i) [ none ↦ codes "undefined" | some name ↦ name ]

  -- `resultsPage` and `resultsPageWithSearch`; `content` is the entry of the section.
  unfoldable pub results_page : Text → ℕ → Text → Text → Text × Text
  results_page path section content search_value =
      elim (index_of (index_char search_value) 0 content) [
        | some idx ↦
            let page =
              path
              ++ (codes "/"
                  ++ (section_name section ++ (codes "_" ++ (to_hex idx ++ codes ".html")))) in
            (page, page ++ (codes "?" ++ escape search_value))
        | none ↦ let page = path ++ codes "/nomatches.html" in (page, page)
      ]

  -- `Search()`. A section that is not there has no `indexOf`: the code throws.
  unfoldable pub search : Layout → SearchBox → Run
  search l s =
      let search_value = strip_leading s.field_value in
      elim (get_elem? sections_with_content s.search_index) [
        | none ↦ throws (record s { key_timeout = 0 })
        | some content ↦
            let (page, location) =
              results_page s.results_path s.search_index content search_value in
            returns (record (open_popup l s) {
              key_timeout = 0;
              frame_location = location;
              last_search_value = search_value;
              last_results_page = page;
            })
      ]
