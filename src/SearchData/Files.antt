-- ===== src/SearchData/Files.antt =====
-- docs/html/search/files_0.js to files_4.js, the data of results pages of one section.
use fiberio.Base.{List, [], ◌∷◌, codes}
use fiberio.SearchResults.Create.{Entry, entry, result}

abbrev pub files_0 : List Entry
files_0 =
    entry (codes "all_2ehpp") (codes "all.hpp") (result (codes "../all_8hpp.html") 1 ([]) ∷ []) ∷ []

abbrev pub files_1 : List Entry
files_1 =
    entry (codes "exceptions_2ehpp") (codes "exceptions.hpp")
      (result (codes "../exceptions_8hpp.html") 1 ([]) ∷ [])
    ∷ []

abbrev pub files_2 : List Entry
files_2 =
    entry (codes "fiberio_2ehpp") (codes "fiberio.hpp")
      (result (codes "../fiberio_8hpp.html") 1 ([]) ∷ [])
    ∷ []

abbrev pub files_3 : List Entry
files_3 =
    entry (codes "iostream_2ehpp") (codes "iostream.hpp")
      (result (codes "../iostream_8hpp.html") 1 ([]) ∷ [])
    ∷ []

abbrev pub files_4 : List Entry
files_4 =
    entry (codes "server_5fsocket_2ehpp") (codes "server_socket.hpp")
      (result (codes "../server__socket_8hpp.html") 1 ([]) ∷ [])
    ∷ entry (codes "socket_2ehpp") (codes "socket.hpp")
        (result (codes "../socket_8hpp.html") 1 ([]) ∷ [])
    ∷ []
