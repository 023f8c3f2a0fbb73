-- ===== src/SearchData/Namespaces.antt =====
-- docs/html/search/namespaces_0.js.
use fiberio.Base.{List, [], ◌∷◌, codes}
use fiberio.SearchResults.Create.{Entry, entry, result}

abbrev pub namespaces_0 : List Entry
namespaces_0 =
    entry (codes "detail") (codes "detail")
      (result (codes "../namespacefiberio_1_1detail.html") 1 (codes "fiberio") ∷ [])
    ∷ entry (codes "fiberio") (codes "fiberio")
        (result (codes "../namespacefiberio.html") 1 ([]) ∷ [])
    ∷ []
