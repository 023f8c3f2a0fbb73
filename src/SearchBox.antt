-- ===== src/SearchBox.antt =====
-- The class SearchBox of docs/html/search/search.js: the object, the elements of the page that it
-- reads and writes, and the browser's pending timers.
pub mod Geometry
pub mod Actions
pub mod Events
pub mod Debounce
pub mod Forgotten
pub mod Histories
pub mod Typed
pub mod Selection
pub mod Pages
pub mod Panel
pub mod Start
use fiberio.Base.{ℕ, suc, ◌+◌, Bool, true, false, List, [], ◌∷◌, ◌==◌, if◌then◌else◌, Text, Option}
use fiberio.Base.Int.{ℤ}
use fiberio.SearchResults.{Display}
use Geometry.{Place}

-- The code that a timer runs: `<name>.Search()` or `<name>.CloseSelectionWindow()`.
pub data Callback : Type 0 where
  run_search run_close_selection : Callback

pub record Timer : Type 0 where
  pub id : ℕ
  pub callback : Callback
  pub delay : ℕ

-- The document element with the focus, as far as the code puts it.
pub data BoxFocus : Type 0 where
  body search_field search_select : BoxFocus
  select_item : ℕ → BoxFocus
  result_item : ℕ → BoxFocus

-- A child node of `MSearchSelectWindow`: an entry of class `SelectItem` or another node, and
-- whether its mark is the bullet.
pub record SelectChild : Type 0 where
  pub is_item : Bool
  pub marked : Bool

pub record SearchBox : Type 0 where
  pub results_path : Text
  pub inside_frame : Bool
  pub search_label : Text
  pub key_timeout : ℕ
  pub hide_timeout : ℕ
  pub last_search_value : Text
  pub last_results_page : Text
  pub search_index : ℕ
  pub search_active : Bool
  -- the elements of the page
  pub field_value : Text
  pub box_active : Bool
  pub select_children : List SelectChild
  pub select_display : Display
  pub select_place : Place
  pub popup_display : Display
  pub popup_place : Place
  pub close_display : Display
  pub frame_location : Text
  pub focus : BoxFocus
  -- the browser
  pub timers : List Timer
  pub next_timer : ℕ

-- What the page gives: `indexSectionsWithContent`, `indexSectionNames`, and the host's functions.
-- `exceeds_one s` is the comparison `s > 1` of a string with a number.
pub record Site : Type 0 where
  pub sections_with_content : List Text
  pub section_names : List Text
  pub to_lower_case : Text → Text
  pub escape : Text → Text
  pub exceeds_one : Text → Bool

abbrev pub key_timeout_length : ℕ
key_timeout_length = 500

abbrev pub close_selection_timeout : ℕ
close_selection_timeout = 300

abbrev pub drop_timer : ℕ → List Timer → List Timer
drop_timer i [] = []
drop_timer i (t ∷ ts) = if t.id == i then drop_timer i ts else t ∷ drop_timer i ts

-- `clearTimeout(id)`
abbrev pub clear_timeout : ℕ → SearchBox → SearchBox
clear_timeout i s = record s { timers = drop_timer i s.timers }

-- `setTimeout(callback, delay)`: the new id is positive and differs from all before it.
abbrev pub set_timeout : Callback → ℕ → SearchBox → SearchBox
set_timeout f d s = record s {
  timers = record { id = s.next_timer; callback = f; delay = d } ∷ s.timers;
  next_timer = suc s.next_timer;
}

-- A method returns normally or by an exception that the code does not catch.
pub data Run : Type 0 where
  returns : SearchBox → Run
  throws : SearchBox → Run

infixl 5 ◌>>=◌
abbrev pub ◌>>=◌ : Run → (SearchBox → Run) → Run
returns s >>= f = f s
throws s >>= f = throws s

abbrev pub state_of : Run → SearchBox
state_of (returns s) = s
state_of (throws s) = s
