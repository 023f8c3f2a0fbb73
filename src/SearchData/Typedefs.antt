-- ===== src/SearchData/Typedefs.antt =====
-- docs/html/search/typedefs_0.js.
use fiberio.Base.{List, [], ◌∷◌, codes}
use fiberio.SearchResults.Create.{Entry, entry, result}

abbrev pub typedefs_0 : List Entry
typedefs_0 =
    entry (codes "socket_5fstream") (codes "socket_stream") (
      result (codes "../namespacefiberio.html#a334505dc79d8951a1db4c0543505d855") 1
        (codes "fiberio")
      ∷ [])
    ∷ entry (codes "socket_5fstreambuf") (codes "socket_streambuf") (
        result (codes "../namespacefiberio.html#aaddb547a03a494fbb2730f2c6ee74f48") 1
          (codes "fiberio")
        ∷ [])
    ∷ []
