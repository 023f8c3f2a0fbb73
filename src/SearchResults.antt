-- ===== src/SearchResults.antt =====
-- The class SearchResults of docs/html/search/search.js, on the page that createResults builds:
-- the rows, the key state and the focus. Row `i` is the one that holds the link `Item<i>`.
use fiberio.Base.{
  ℕ, zero, suc, ◌+◌, ◌≡◌, refl, Bool, true, false, not, ◌&&◌, ◌||◌, List, [], ◌∷◌, ◌++◌, arith, ltb,
  leb, ◌==◌, if◌then◌else◌, Text, codes, text_eq, Option, none, some, length, take, drop, get_elem?,
}
use fiberio.SearchId.{convert_to_id}
pub mod Search
pub mod Keys
pub mod Nav
pub mod Tree
pub mod Create

-- `style.display`; `unset` is the empty string.
pub data Display : Type 0 where
  unset hidden block inline : Display

abbrev pub is_block : Display → Bool
is_block block = true
is_block _ = false

-- The `SRChildren` element of a row with several results, and how many links it holds.
pub record Children : Type 0 where
  pub shown : Display
  pub count : ℕ

-- A `div` of the page, with the result that it shows.
pub record Row : Type 0 where
  pub class_name : Text
  pub id : Text
  pub display : Display
  pub children : Option Children

-- Where the focus was put last: `Item<i>`, `Item<i>_c<j>` or the search field of the parent page.
pub data Focus : Type 0 where
  nowhere : Focus
  item : ℕ → Focus
  child : ℕ → ℕ → Focus
  search_field : Focus

-- `close_calls` counts the calls of `parent.searchBox.CloseResultsWindow`.
pub record Page : Type 0 where
  pub rows : List Row
  pub searching : Display
  pub no_matches : Display
  pub focus : Focus
  pub close_calls : ℕ

pub record SearchResults : Type 0 where
  pub last_match_count : ℕ
  pub last_key : ℕ
  pub repeat_on : Bool

abbrev pub new : SearchResults
new = record { last_match_count = 0; last_key = 0; repeat_on = false }
