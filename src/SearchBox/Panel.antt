-- ===== src/SearchBox/Panel.antt =====
-- The search panel: what Escape and the close button leave behind.
use fiberio.Base.{◌≡◌, Bool, false, List, [], Option, arith}
use fiberio.SearchResults.{hidden, Row}
use fiberio.SearchBox.{SearchBox}
use fiberio.SearchBox.Geometry.{Layout}
use fiberio.SearchBox.Actions.{activate, move_focus, close_results_window}
use fiberio.SearchBox.Events.{kill_key_timer, escape_field, on_search_field_change}

-- The panel is put away: no results, no pending search, and the field shows its label.
pub record Closed (s : SearchBox) : Type 0 where
  pub no_popup : s.popup_display ≡ hidden
  pub no_close : s.close_display ≡ hidden
  pub inactive : s.box_active ≡ false
  pub idle : s.search_active ≡ false
  pub label : s.field_value ≡ s.search_label
  pub forgotten : s.last_search_value ≡ []
  pub no_page : s.last_results_page ≡ []

-- The close button of the results window puts the panel away from any state.
pub close_results_window-Closed : (s : SearchBox) → Closed (close_results_window s)
unfolding close_results_window activate
close_results_window-Closed s = ground arith

escape_field-Closed : (s : SearchBox) → Closed (escape_field s)
unfolding escape_field activate
escape_field-Closed s = ground arith

move_focus-key : (s : SearchBox) → (escape_field s).key_timeout ≡ s.key_timeout
unfolding escape_field activate move_focus
move_focus-key s = ground arith

-- Escape in the search field puts the panel away from any state, and leaves `keyTimeout` at 0.
escape-Closed :
    (l : Layout) (results : Option (List Row)) (shift : Bool) (s : SearchBox)
    → let s' = on_search_field_change l results (record { key_code = 27; shift_key = shift }) s in
      Closed s' × (s'.key_timeout ≡ 0)
unfolding on_search_field_change kill_key_timer
escape-Closed l results shift s =
    (escape_field-Closed (kill_key_timer s), ground (arith, move_focus-key (kill_key_timer s)))
