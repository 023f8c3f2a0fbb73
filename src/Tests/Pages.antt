-- ===== src/Tests/Pages.antt =====
-- The identifiers and the results page at concrete inputs.
use fiberio.Base.{
  length, ℕ, get_elem?, ◌≢◌, zero, suc, ◌≡◌, refl, true, List, [], ◌∷◌, map, none, some, Text,
  codes, arith, starts_with, count_if, ◌==◌,
}
use fiberio.SearchId.{convert_to_id}
use fiberio.SearchId.Prefix.{Units, starts_with-convert_to_id}
use fiberio.SearchResults.{Row, Page, new, hidden, block, is_block, nowhere, item}
use fiberio.SearchResults.Search.{search_text, search_key, search_page, result_class}
use fiberio.SearchResults.Search.Shown.{shown, is_hit, search_page_lem}
use fiberio.SearchResults.Keys.{keydown}
use fiberio.SearchResults.Create.{Result, entry, result, Entry}
use fiberio.SearchResults.Nav.Steps.{Act, key, click, Tidy, OnPage, act_all, act_all-OnPage}
use fiberio.SearchResults.Tree.{Element, Nodes, node, nil, cons, find_child_element}
use fiberio.SearchResults.Tree.Walk.{first_of_all, find_child_element-first_of_all}
use fiberio.SearchResults.Create.Markup.{
  create_elements, symbol_link, child_id, child_link, to_decimal, decimal_digits,
}
use fiberio.SearchResults.Create.Markup.Links.{all_links, with_id, with_id-create_results}

io_Units : Units (codes "io:")
io_Units = (omega arith, (omega arith, (omega arith, tt)))

iostream_Units : Units (codes "io::x")
iostream_Units = (omega arith, (omega arith, (omega arith, (omega arith, (omega arith, tt)))))

starts_with-convert_to_id_example :
    starts_with (convert_to_id (codes "io:")) (convert_to_id (codes "io::x")) ≡ true
unfolding starts_with
starts_with-convert_to_id_example =
    starts_with-convert_to_id (codes "io:") (codes "io::x") io_Units iostream_Units

abbrev row : Text → Row
row id = record { class_name = result_class; id = id; display = block; children = none }

-- The results `accept` and `bind`; the second row is hidden in `folded`.
abbrev page : Page
page = record {
  rows = row (codes "sr_accept") ∷ row (codes "sr_bind") ∷ [];
  searching = block;
  no_matches = hidden;
  focus = nowhere;
  close_calls = 0;
}

abbrev same : Text → Text
same t = t

search_page_lem_example :
    let key = search_key same (search_text same [] (codes "a")) in
    let (this', page') = search_page same same [] (codes "a") new page in
    (page'.rows ≡ map (shown same key) page.rows)
    × (this'.last_match_count ≡ count_if is_hit page'.rows)
    × (is_block page'.no_matches ≡ (count_if is_hit page'.rows == 0))
    × (page'.searching ≡ hidden)
search_page_lem_example = search_page_lem same same [] (codes "a") new page

abbrev hidden_row : Row
hidden_row = record (row (codes "sr_close")) { display = hidden }

-- A visible row, a hidden one and a visible one.
abbrev rows : List Row
rows = row (codes "sr_accept") ∷ hidden_row ∷ row (codes "sr_bind") ∷ []

-- The first row shows its two children; Down goes into them and past them, and Up comes back.
abbrev open_page : Page
open_page = record page {
  rows =
      record (row (codes "sr_accept")) { children = some (record { shown = block; count = 2 }) }
      ∷ hidden_row
      ∷ row (codes "sr_bind")
      ∷ [];
  focus = item 0;
}

abbrev down_and_up : List Act
down_and_up =
    key (record { type = keydown; key_code = 40 })
    ∷ key (record { type = keydown; key_code = 40 })
    ∷ key (record { type = keydown; key_code = 40 })
    ∷ key (record { type = keydown; key_code = 38 })
    ∷ click 0
    ∷ []

open_page-Tidy : Tidy open_page.rows
open_page-Tidy zero j c = refl
open_page-Tidy (suc zero) j c = absurd (cc c)
open_page-Tidy (suc (suc zero)) j c = refl
open_page-Tidy (suc (suc (suc i))) j c = absurd (cc c)

act_all-OnPage_example :
    let (_, page') = act_all down_and_up new open_page in
    Tidy page'.rows × OnPage page'.rows page'.focus
act_all-OnPage_example = act_all-OnPage down_and_up new open_page open_page-Tidy refl

abbrev div : Text → Element
div c = record { node_name = codes "DIV"; class_name = c; display = hidden }

abbrev below : Nodes
below = cons (node (div []) (cons (node (div (codes "SRChildren")) nil) nil)) nil

find_child_element-first_of_all_example : find_child_element below ≡ first_of_all below
find_child_element-first_of_all_example = find_child_element-first_of_all below

abbrev entries : List Entry
entries =
    record {
      id = codes "io_3a";
      name = codes "io:";
      results = result (codes "a.html") 1 (codes "fiberio") ∷ [];
    }
    ∷ record {
      id = codes "bind";
      name = codes "bind";
      results = result [] 1 (codes "a") ∷ result [] 1 (codes "b") ∷ [];
    }
    ∷ []

abbrev bind_entry : Entry
bind_entry =
    entry (codes "bind") (codes "bind") (result [] 1 (codes "a") ∷ result [] 1 (codes "b") ∷ [])

with_id-create_results_example :
    let links = all_links (create_elements 0 entries) in
    (with_id (codes "Item1") links ≡ symbol_link 1 bind_entry ∷ [])
    × ((c : ℕ) (r : Result)
        → get_elem? bind_entry.results c ≡ some r
        → length bind_entry.results ≢ 1
        → with_id (child_id 1 c) links ≡ child_link 1 c r ∷ [])
unfolding to_decimal decimal_digits
with_id-create_results_example = with_id-create_results entries 1 bind_entry refl
