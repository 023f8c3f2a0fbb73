-- ===== src/SearchResults/Create.antt =====
-- createResults of docs/html/search/search.js: the rows of the results page, with what the class
-- SearchResults reads of them; Markup has the elements with the rest.
pub mod Counted
pub mod Markup
use fiberio.Base.{
  ℕ, ◌+◌, List, [], ◌∷◌, ◌++◌, ◌==◌, if◌then◌else◌, Text, codes, length, Option, none, some,
}
use fiberio.SearchResults.{unset, Row, Children}
use fiberio.SearchResults.Search.{result_class}

-- A result of an entry: where it leads, whether in the parent window, and where it is declared.
pub record Result : Type 0 where
  pub link : Text
  pub target : ℕ
  pub scope : Text

-- An entry of `searchData`: its identifier, its name and its results.
pub record Entry : Type 0 where
  pub id : Text
  pub name : Text
  pub results : List Result

-- As they stand in `searchData`, in arrays.
abbrev pub result : Text → ℕ → Text → Result
result link target scope = record { link = link; target = target; scope = scope }

abbrev pub entry : Text → Text → List Result → Entry
entry id name results = record { id = id; name = name; results = results }

-- One round of the loop. The children are made one by one; nothing sets their display.
unfoldable pub create_row : Entry → Row
create_row e = record {
  class_name = result_class;
  id = codes "SR_" ++ e.id;
  display = unset;
  children =
      if length e.results == 1
      then none
      else some (record { shown = unset; count = length e.results });
}

unfoldable pub create_results : List Entry → List Row
create_results [] = []
create_results (e ∷ es) = create_row e ∷ create_results es
