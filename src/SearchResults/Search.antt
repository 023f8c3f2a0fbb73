-- ===== src/SearchResults/Search.antt =====
-- SearchResults.Search: which rows of the results page are shown for a search text.
pub mod Shown
use fiberio.Base.{
  ℕ, zero, suc, ◌+◌, ◌≡◌, refl, Bool, true, false, ◌&&◌, List, [], ◌∷◌, ◌++◌, arith, leb, ◌==◌,
  if◌then◌else◌, Text, codes, text_eq, Option, none, some, length, take, drop,
}
use fiberio.SearchId.{convert_to_id}
use fiberio.SearchResults.{Display, unset, hidden, block, Row, Page, SearchResults}

-- `replace(/^ +/, "")`
unfoldable pub strip_leading : Text → Text
strip_leading [] = []
strip_leading (c ∷ s) = let rest = strip_leading s in if c == b' ' then rest else c ∷ s

-- `replace(/ +$/, "")`
unfoldable pub strip_trailing : Text → Text
strip_trailing [] = []
strip_trailing (c ∷ s) = elim (strip_trailing s) [
  | [] ↦ if c == b' ' then [] else c ∷ []
  | d ∷ r ↦ c ∷ d ∷ r
]

abbrev pub is_digit : ℕ → Bool
is_digit c = leb b'0' c && leb c b'9'

-- `\d*_` at the start of a text: what follows it, if it is there.
after_number : Text → Option Text
after_number [] = none
after_number (c ∷ s) =
    let rest = after_number s in if is_digit c then rest else if c == b'_' then some s else none

-- `replace(/^sr\d*_/, "")`
unfoldable pub strip_row_prefix : Text → Text
unfolding after_number
strip_row_prefix (c ∷ d ∷ s) =
    if c == b's' && d == b'r'
    then elim (after_number s) [ some rest ↦ rest | none ↦ c ∷ d ∷ s ]
    else c ∷ d ∷ s
strip_row_prefix s = s

abbrev pub result_class : Text
result_class = codes "SRResult"

-- The search text, or the query of the page's address if there is none, decoded by the host.
unfoldable pub search_text : (Text → Text) → Text → Text → Text
search_text unescape location [] = unescape (drop 1 location)
search_text unescape location (c ∷ s) = c ∷ s

-- `to_lower_case` is the host's `String.toLowerCase`.
module _ (to_lower_case : Text → Text) where
  unfoldable pub search_key : Text → Text
  search_key search = convert_to_id (to_lower_case (strip_trailing (strip_leading search)))

  -- The test on one row of class `SRResult`.
  unfoldable pub row_matches : Text → Row → Bool
  row_matches key row =
      let name = strip_row_prefix (to_lower_case row.id) in
      leb (length key) (length name) && text_eq (take (length key) name) key

  -- The body of the loop: one more match or not, and the row as it is left.
  unfoldable pub show_row : Text → Row → ℕ → ℕ × Row
  show_row key row matches =
      if text_eq row.class_name result_class
      then if row_matches key row
        then (matches + 1, record row { display = block })
        else (matches, record row { display = hidden })
      else (matches, row)

  -- The loop over the rows, with the number of matches so far.
  unfoldable pub show_rows : Text → List Row → ℕ → ℕ × List Row
  show_rows key [] matches = (matches, [])
  show_rows key (row ∷ rows) matches =
      let (n, row') = show_row key row matches in
      let (total, rest) = show_rows key rows n in (total, row' ∷ rest)

  -- `Search(search)` at the page's address; it always returns true.
  unfoldable pub search_page :
      (Text → Text) → Text → Text → SearchResults → Page → SearchResults × Page
  search_page unescape location search this page =
      let (matches, rows) =
        show_rows (search_key (search_text unescape location search)) page.rows 0 in
      (
        record this { last_match_count = matches },
        record page {
          rows = rows;
          searching = hidden;
          no_matches = if matches == 0 then block else hidden;
        },
      )
