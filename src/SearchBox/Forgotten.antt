-- ===== src/SearchBox/Forgotten.antt =====
-- What a selection in the filter menu of docs/html/search/search.js does to the key timer.
use fiberio.Base.{
  ℕ, suc, ◌≡◌, refl, Bool, true, false, not, ◌&&◌, ◌||◌, List, [], Option, some, ◌==◌, Text,
  text_eq, arith, get_elem?, if_true, if_false, ap, ◌∙◌,
}
use fiberio.SearchResults.{Row}
use fiberio.SearchResults.Search.{strip_leading}
use fiberio.SearchBox.{SearchBox, Site, state_of}
use fiberio.SearchBox.Geometry.{Layout}
use fiberio.SearchBox.Actions.{select_item_set, search}
use fiberio.SearchBox.Events.{
  KeyPress, strip_spaces, kill_key_timer, field_changed, on_search_field_change, on_select_item,
}
use fiberio.SearchBox.Debounce.{searches, open_popup-timers}

abbrev pub is_plain : KeyPress → Bool
is_plain e = not (e.key_code == 40) && not (e.key_code == 13) && not (e.key_code == 27)

search-fields :
    (site : Site) (l : Layout) (content : Text) (s : SearchBox)
    → get_elem? site.sections_with_content s.search_index ≡ some content
    → let s' = state_of (search site l s) in
      (s'.timers ≡ s.timers)
      × (s'.key_timeout ≡ 0)
      × (s'.last_search_value ≡ strip_leading s.field_value)
unfolding search
search-fields site l content s c = ground (arith, open_popup-timers l s)

on_select_item-fields :
    (site : Site) (l : Layout) (id : ℕ) (content : Text) (s : SearchBox)
    → s.search_active ≡ true
    → text_eq (strip_spaces s.field_value) [] ≡ false
    → get_elem? site.sections_with_content id ≡ some content
    → let s' = state_of (on_select_item site l id s) in
      (s'.timers ≡ s.timers)
      × (s'.key_timeout ≡ 0)
      × (s'.last_search_value ≡ strip_leading s.field_value)
unfolding on_select_item
on_select_item-fields site l id content s active text c = rw (if_true _ _ searching) (
    search-fields site l content
      (record s { search_index = id; select_children = select_item_set id 0 s.select_children }) c)
  where
    searching : (not (text_eq (strip_spaces s.field_value) []) && s.search_active) ≡ true
    searching = ground arith

pub on_search_field_change-plain :
    (l : Layout) (results : Option (List Row)) (e : KeyPress) (s : SearchBox)
    → is_plain e ≡ true
    → on_search_field_change l results e s ≡ field_changed (kill_key_timer s)
unfolding on_search_field_change
on_search_field_change-plain l results e s p = if_false _ _ other ∙ if_false _ _ no_escape
  where
    other : (e.key_code == 40 || e.key_code == 13) ≡ false
    other = ground arith

    no_escape : (e.key_code == 27) ≡ false
    no_escape = ground arith

field_changed-searches :
    (l : Layout) (results : Option (List Row)) (e : KeyPress) (s : SearchBox)
    → is_plain e ≡ true
    → s.key_timeout ≡ 0
    → text_eq (strip_spaces s.field_value) [] ≡ false
    → text_eq (strip_spaces s.field_value) s.last_search_value ≡ false
    → searches (on_search_field_change l results e s).timers ≡ suc (searches s.timers)
unfolding kill_key_timer field_changed
field_changed-searches l results e s p k w d =
    rw (on_search_field_change-plain l results e s p, if_true _ _ idle, if_false _ _ d, w) refl
  where
    idle : (s.key_timeout == 0) ≡ true
    idle = ground arith

-- While one search is pending, a selection in the filter menu that searches an existing section
-- forgets the pending search without clearing its timer: the next plain change of the field to
-- another non-empty text leaves two searches pending.
pub on_select_item-forgets :
    (site : Site) (l : Layout) (id : ℕ) (content v : Text) (results : Option (List Row))
    (e : KeyPress) (s : SearchBox)
    → searches s.timers ≡ 1
    → s.search_active ≡ true
    → text_eq (strip_spaces s.field_value) [] ≡ false
    → get_elem? site.sections_with_content id ≡ some content
    → is_plain e ≡ true
    → text_eq (strip_spaces v) [] ≡ false
    → text_eq (strip_spaces v) (strip_leading s.field_value) ≡ false
    → let s' = state_of (on_select_item site l id s) in
      searches (on_search_field_change l results e (record s' { field_value = v })).timers ≡ 2
on_select_item-forgets site l id content v results e s one active text c p w d =
    field_changed-searches l results e (record s' { field_value = v }) p forgot.1 w (rw forgot.2 d)
    ∙ ap suc (ap searches forgot.0 ∙ one)
  where
    s' : SearchBox
    s' = state_of (on_select_item site l id s)

    forgot :
        (s'.timers ≡ s.timers)
        × (s'.key_timeout ≡ 0)
        × (s'.last_search_value ≡ strip_leading s.field_value)
    forgot = on_select_item-fields site l id content s active text c
