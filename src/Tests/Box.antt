-- ===== src/Tests/Box.antt =====
-- The search box at concrete inputs.
use fiberio.Base.{◌≡◌, refl, true, false, List, [], ◌∷◌, none, codes, arith, text_eq}
use fiberio.Base.Int.{pos}
use fiberio.SearchResults.{hidden}
use fiberio.SearchResults.Search.{strip_leading}
use fiberio.SearchBox.{SearchBox, Site, run_search, search_field, SelectChild, state_of}
use fiberio.SearchBox.Geometry.{Layout, Place}
use fiberio.SearchBox.Events.{KeyPress, on_search_field_change, on_select_item, strip_spaces}
use fiberio.SearchBox.Debounce.{Debounced, searches}
use fiberio.SearchBox.Histories.{
  Event, change, typed, time_out, select_hide, handle_all, handle_all-Debounced,
}
use fiberio.SearchBox.Forgotten.{on_select_item-forgets}
use fiberio.SearchBox.Typed.{Found, typed-Found}

-- Two sections: one with names on `c` and `r`, one with names on `r` alone.
abbrev site : Site
site = record {
  sections_with_content = codes "cr" ∷ codes "r" ∷ [];
  section_names = codes "all" ∷ codes "classes" ∷ [];
  to_lower_case = λ t. t;
  escape = λ t. t;
  exceeds_one = λ t. false;
}

abbrev nowhere : Place
nowhere = record { left = pos 0; top = pos 0; width = pos 0 }

abbrev pub layout : Layout
layout = record {
  search_select = record { width = 20; height = 19; chain = [] };
  search_box = record { width = 200; height = 24; chain = [] };
  select_window_width = 100;
  results_width = 300;
  client_width = 800;
}

abbrev entry : SelectChild
entry = record { is_item = true; marked = false }

-- `read` stands in the field, and a search is due.
abbrev pub typing : SearchBox
typing = record {
  results_path = codes "search";
  inside_frame = false;
  search_label = codes "Search";
  key_timeout = 1;
  hide_timeout = 0;
  last_search_value = [];
  last_results_page = [];
  search_index = 1;
  search_active = true;
  field_value = codes "read";
  box_active = true;
  select_children = entry ∷ entry ∷ [];
  select_display = hidden;
  select_place = nowhere;
  popup_display = hidden;
  popup_place = nowhere;
  close_display = hidden;
  frame_location = [];
  focus = search_field;
  timers = record { id = 1; callback = run_search; delay = 500 } ∷ [];
  next_timer = 2;
}

abbrev letter : KeyPress
letter = record { key_code = 65; shift_key = false }

typing-Debounced : Debounced typing
typing-Debounced = record {
  fresh = omega arith;
  timed = (omega arith, omega arith, λ h. refl, tt);
  single = omega arith;
}

-- The filter menu is left, a key comes, the search runs, and the text is changed twice.
abbrev visit : List Event
visit =
    select_hide
    ∷ change none letter
    ∷ time_out 0
    ∷ typed (codes "bind")
    ∷ change none letter
    ∷ typed (codes "binds")
    ∷ change none letter
    ∷ time_out 1
    ∷ []

handle_all-Debounced_example : Debounced (handle_all site layout visit typing)
handle_all-Debounced_example = handle_all-Debounced site layout visit typing typing-Debounced

on_select_item-forgets_example :
    let s' = state_of (on_select_item site layout 0 typing) in
    searches
      (on_search_field_change layout none letter (record s' { field_value = codes "reads" })).timers
    ≡ 2
unfolding strip_spaces strip_leading text_eq
on_select_item-forgets_example =
    on_select_item-forgets site layout 0 (codes "cr") (codes "reads") none letter typing refl refl
      refl refl refl refl refl

typed-Found_example :
    let t =
      handle_all site layout
        (typed (codes "resume") ∷ change none letter ∷ time_out 0 ∷ [])
        typing in
    Found site (codes "resume") (codes "search") 1 (codes "r") t × (searches t.timers ≡ 0)
unfolding strip_spaces text_eq
typed-Found_example =
    typed-Found site layout (codes "resume") (codes "r") letter typing typing-Debounced refl refl
      refl refl
