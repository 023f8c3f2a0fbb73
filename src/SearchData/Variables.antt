-- ===== src/SearchData/Variables.antt =====
-- docs/html/search/variables_0.js.
use fiberio.Base.{List, [], ◌∷◌, codes}
use fiberio.SearchResults.Create.{Entry, entry, result}

abbrev pub variables_0 : List Entry
variables_0 =
    entry (codes "default_5fbuf_5fsize") (codes "DEFAULT_BUF_SIZE") (
      result (codes "../classfiberio_1_1socket.html#a7e5d7a51cf2f07adccd015efe00b55e7") 1
        (codes "fiberio::socket")
      ∷ [])
    ∷ []
