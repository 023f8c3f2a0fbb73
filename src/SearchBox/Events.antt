-- ===== src/SearchBox/Events.antt =====
-- The event handlers of SearchBox and the timers that it sets.
use fiberio.Base.{
  ℕ, suc, ◌+◌, ◌-◌, Bool, false, not, ◌&&◌, ◌||◌, List, [], ◌∷◌, Option, none, some, ltb, ◌==◌,
  if◌then◌else◌, Text, text_eq,
}
use fiberio.SearchResults.{hidden, Row}
use fiberio.SearchResults.Nav.{nav_next}
use fiberio.SearchBox.{
  SearchBox, SelectChild, Site, Timer, run_search, run_close_selection, BoxFocus, body,
  search_field, select_item, result_item, Run, returns, ◌>>=◌, clear_timeout, set_timeout,
  drop_timer, key_timeout_length,
}
use fiberio.SearchBox.Geometry.{Layout}
use fiberio.SearchBox.Actions.{
  activate, move_focus, close_selection_window, on_search_select_show, select_item_count,
  select_item_set, search,
}

pub record KeyPress : Type 0 where
  pub key_code : ℕ
  pub shift_key : Bool

-- `replace(/ +/g, "")`
unfoldable pub strip_spaces : Text → Text
strip_spaces [] = []
strip_spaces (c ∷ s) = let rest = strip_spaces s in if c == b' ' then rest else c ∷ rest

-- The first child node of class `SelectItem`, from position `i` on.
unfoldable pub first_select_item : ℕ → List SelectChild → Option ℕ
first_select_item i [] = none
first_select_item i (c ∷ cs) =
    let rest = first_select_item (suc i) cs in if c.is_item then some i else rest

abbrev pub focus_on : (ℕ → BoxFocus) → Option ℕ → SearchBox → SearchBox
focus_on f none s = s
focus_on f (some i) s = move_focus (f i) s

-- `if (this.keyTimeout) { clearTimeout(this.keyTimeout); this.keyTimeout = 0; }`
unfoldable pub kill_key_timer : SearchBox → SearchBox
kill_key_timer s =
    if s.key_timeout == 0 then s else record (clear_timeout s.key_timeout s) { key_timeout = 0 }

-- The end of OnSearchFieldChange: a search is due, or the results are put away.
unfoldable pub field_changed : SearchBox → SearchBox
field_changed s =
    let search_value = strip_spaces s.field_value in
    if text_eq search_value s.last_search_value
    then s
    else if not (text_eq search_value [])
    then record (set_timeout run_search key_timeout_length s) { key_timeout = s.next_timer }
    else record s { popup_display = hidden; close_display = hidden; last_search_value = [] }

-- Escape out of the search field.
unfoldable pub escape_field : SearchBox → SearchBox
escape_field s = activate false (record (move_focus body s) {
  popup_display = hidden;
  close_display = hidden;
  last_search_value = [];
})

-- `OnSearchFieldChange(evt)`; `results` are the rows of the results page in the frame, if it has
-- been loaded.
unfoldable pub on_search_field_change :
    Layout → Option (List Row) → KeyPress → SearchBox → SearchBox
on_search_field_change l results e this =
    let s = kill_key_timer this in
    if e.key_code == 40 || e.key_code == 13
    then if e.shift_key
      then focus_on select_item (first_select_item 0 s.select_children) (on_search_select_show l s)
      else field_changed
          (elim results [ none ↦ s | some rows ↦ focus_on result_item (nav_next rows 0) s ])
    else if e.key_code == 27
    then escape_field s
    else field_changed s

module _ (site : Site) where
  -- `OnSelectItem(id)`
  unfoldable pub on_select_item : Layout → ℕ → SearchBox → Run
  on_select_item l id this =
      let s = record this {
        search_index = id;
        select_children = select_item_set id 0 this.select_children;
      } in
      if not (text_eq (strip_spaces s.field_value) []) && s.search_active
      then search site l s
      else returns s

  -- `OnSearchSelectKey(evt)`; without an exception it returns false.
  unfoldable pub on_search_select_key : Layout → KeyPress → SearchBox → Run
  on_search_select_key l e s =
      if e.key_code == 40 && ltb s.search_index (select_item_count s.select_children)
      then on_select_item l (s.search_index + 1) (record s { search_index = s.search_index + 1 })
      else if e.key_code == 38 && ltb 0 s.search_index
      then on_select_item l (s.search_index - 1) (record s { search_index = s.search_index - 1 })
      else if e.key_code == 13 || e.key_code == 27
      then (on_select_item l s.search_index s
          >>= (λ s'. returns (move_focus search_field (close_selection_window s'))))
      else returns s

  -- A timer runs out: it is no longer pending, and its code is run.
  unfoldable pub fire : Layout → Timer → SearchBox → Run
  fire l t s =
      let s' = record s { timers = drop_timer t.id s.timers } in
      elim t.callback [
        | run_search ↦ search site l s'
        | run_close_selection ↦ returns (close_selection_window s')
      ]
