-- ===== src/SearchData/Pages.antt =====
-- docs/html/search/pages_0.js.
use fiberio.Base.{List, [], ◌∷◌, codes}
use fiberio.SearchResults.Create.{Entry, entry, result}

abbrev pub pages_0 : List Entry
pages_0 =
    entry (codes "overview") (codes "Overview") (result (codes "../index.html") 1 ([]) ∷ []) ∷ []
