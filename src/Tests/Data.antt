-- ===== src/Tests/Data.antt =====
-- The search of the documentation's own index at concrete inputs.
use fiberio.Base.{
  ℕ, ◌≡◌, ◌⊎◌, refl, true, List, [], ◌∷◌, ◌++◌, some, codes, starts_with, get_elem?, count_if,
  arith,
}
use fiberio.SearchId.Prefix.{Units}
use fiberio.SearchResults.{SearchResults, Page}
use fiberio.SearchResults.Search.{search_page, strip_leading, strip_trailing}
use fiberio.SearchResults.Create.{Entry, create_results}
use fiberio.SearchBox.{SearchBox, state_of}
use fiberio.SearchBox.Actions.{search, index_char}
use fiberio.SearchBox.Pages.{page_at}
use fiberio.SearchData.Classes.{classes_0, classes_1, classes_2}
use fiberio.SearchData.Index.{ascii_lower, all_names}
use fiberio.SearchData.Complete.{site, search-matches}
use fiberio.Tests.Box.{layout, typing}

abbrev class_pages : List (List Entry)
class_pages = classes_0 ∷ classes_1 ∷ classes_2 ∷ []

-- `Socket` stands in the field, and the section is that of the classes.
abbrev looking : SearchBox
looking = record typing { field_value = codes "Socket" }

Socket_Units : Units (codes "Socket")
Socket_Units = ground arith

socket_name_Units : Units (codes "socket")
socket_name_Units = ground arith

search-matches_example :
    let found = count_if (starts_with (codes "socket")) (all_names class_pages) in
    let s' = state_of (search (site ascii_lower (λ t. t) (λ t. true)) layout looking) in
    ((k : ℕ) × (es : List Entry) × (get_elem? class_pages k ≡ some es)
      × (s'.frame_location
          ≡ page_at (site ascii_lower (λ t. t) (λ t. true)) looking k
            ++ (codes "?" ++ codes "Socket"))
      × ((this : SearchResults) (p : Page)
          → (search_page ascii_lower
              (λ t. t)
              (codes "?" ++ codes "Socket")
              []
              this
              (record p { rows = create_results es })).0.last_match_count
            ≡ found))
    ⊎ ((s'.frame_location ≡ looking.results_path ++ codes "/nomatches.html") × (found ≡ 0))
unfolding index_char strip_leading strip_trailing starts_with
search-matches_example =
    search-matches ascii_lower (λ t. t) (λ t. t) (λ t. true) (λ t h. refl) (λ t u. refl) layout
      looking b's' (codes "ocket") (codes "ais") class_pages refl refl refl refl Socket_Units
      socket_name_Units refl
