-- ===== src/SearchBox/Typed.antt =====
-- A text that is typed into the search field of docs/html/search/search.js, up to the page that its
-- search opens.
use fiberio.Base.{
  ℕ, ◌≡◌, refl, true, false, [], ◌∷◌, none, some, Text, text_eq, arith, get_elem?, ◌∙◌,
}
use fiberio.SearchResults.{is_block}
use fiberio.SearchResults.Search.{strip_leading}
use fiberio.SearchBox.{
  SearchBox, Site, run_search, key_timeout_length, set_timeout, state_of, drop_timer,
}
use fiberio.SearchBox.Geometry.{Layout}
use fiberio.SearchBox.Actions.{search, open_popup, results_page}
use fiberio.SearchBox.Events.{
  KeyPress, strip_spaces, kill_key_timer, field_changed, on_search_field_change, fire,
}
use fiberio.SearchBox.Debounce.{
  searches, Debounced, fire-Debounced, on_search_field_change-Debounced,
}
use fiberio.SearchBox.Forgotten.{is_plain, on_search_field_change-plain}
use fiberio.SearchBox.Histories.{change, typed, time_out, handle, handle_all, Debounced-same}

kill_key_timer-fields :
    (s : SearchBox)
    → let k = kill_key_timer s in
      (k.field_value ≡ s.field_value)
      × (k.last_search_value ≡ s.last_search_value)
      × (k.search_index ≡ s.search_index)
      × (k.results_path ≡ s.results_path)
unfolding kill_key_timer
kill_key_timer-fields s = ground arith

-- The box once a search is due.
abbrev due : SearchBox → SearchBox
due k = record (set_timeout run_search key_timeout_length k) { key_timeout = k.next_timer }

field_changed-due :
    (s : SearchBox)
    → text_eq (strip_spaces s.field_value) [] ≡ false
    → text_eq (strip_spaces s.field_value) s.last_search_value ≡ false
    → field_changed s ≡ due s
unfolding field_changed
field_changed-due s w d = rw (d, w) refl

change-due :
    (l : Layout) (e : KeyPress) (s : SearchBox)
    → is_plain e ≡ true
    → text_eq (strip_spaces s.field_value) [] ≡ false
    → text_eq (strip_spaces s.field_value) s.last_search_value ≡ false
    → on_search_field_change l none e s ≡ due (kill_key_timer s)
change-due l e s p w d =
    let f = kill_key_timer-fields s in
    on_search_field_change-plain l none e s p
    ∙ field_changed-due (kill_key_timer s) (rw f.0 w) (rw (f.0, f.1) d)

-- What a search leaves of a box with this text, section and path.
abbrev pub Found : Site → Text → Text → ℕ → Text → SearchBox → Type 0
Found site v path section content t =
    (t.frame_location ≡ (results_page site path section content (strip_leading v)).1)
    × (t.last_search_value ≡ strip_leading v)
    × (is_block t.popup_display ≡ true)

open_popup-block : (l : Layout) (s : SearchBox) → is_block (open_popup l s).popup_display ≡ true
unfolding open_popup
open_popup-block l s = ground arith

search-Found :
    (site : Site) (l : Layout) (content : Text) (s : SearchBox)
    → get_elem? site.sections_with_content s.search_index ≡ some content
    → Found site s.field_value s.results_path s.search_index content (state_of (search site l s))
unfolding search
search-Found site l content s c = rw (state_of, c) (refl, refl, open_popup-block l s)

Found-same :
    (site : Site) {v v' path path' : Text} {n n' : ℕ} (content : Text) (t : SearchBox)
    → v ≡ v'
    → path ≡ path'
    → n ≡ n'
    → Found site v path n content t
    → Found site v' path' n' content t
Found-same site content t p q r h = rw (← p, ← q, ← r) h

-- The timer of a due search runs out.
time_out-Found :
    (site : Site) (l : Layout) (content : Text) (k : SearchBox)
    → Debounced (due k)
    → get_elem? site.sections_with_content k.search_index ≡ some content
    → let t = handle site l (time_out 0) (due k) in
      Found site k.field_value k.results_path k.search_index content t × (searches t.timers ≡ 0)
unfolding fire
time_out-Found site l content k v c = (
  search-Found site l content (record (due k) { timers = drop_timer k.next_timer (due k).timers })
      c,
  (fire-Debounced site l
      (record { id = k.next_timer; callback = run_search; delay = key_timeout_length }) (due k) v
      refl refl).1,
)

-- A text that is typed, with a plain key, and not blank nor the last one searched for, is searched
-- for once its timer runs out: the results page of the text opens in the section of the filter
-- menu, the results window is shown, and no search is left pending. At most one search was pending
-- before, and the section exists.
pub typed-Found :
    (site : Site) (l : Layout) (v content : Text) (e : KeyPress) (s : SearchBox)
    → Debounced s
    → is_plain e ≡ true
    → text_eq (strip_spaces v) [] ≡ false
    → text_eq (strip_spaces v) s.last_search_value ≡ false
    → get_elem? site.sections_with_content s.search_index ≡ some content
    → let t = handle_all site l (typed v ∷ change none e ∷ time_out 0 ∷ []) s in
      Found site v s.results_path s.search_index content t × (searches t.timers ≡ 0)
typed-Found site l v content e s h p w d c = rw (change-due l e s' p w d) (
    let k = kill_key_timer s' in
    let found = time_out-Found site l content k debounced (rw f.2 c) in
    (Found-same site content (handle site l (time_out 0) (due k)) f.0 f.3 f.2 found.0, found.1))
  where
    s' : SearchBox
    s' = record s { field_value = v }

    f :
        let k = kill_key_timer s' in
        (k.field_value ≡ v)
        × (k.last_search_value ≡ s.last_search_value)
        × (k.search_index ≡ s.search_index)
        × (k.results_path ≡ s.results_path)
    f = kill_key_timer-fields s'

    debounced : Debounced (due (kill_key_timer s'))
    debounced =
        rw (change-due l e s' p w d) at
          (on_search_field_change-Debounced l none e s' (Debounced-same s s' refl refl refl h))
