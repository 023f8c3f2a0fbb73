-- ===== src/SearchData/Classes.antt =====
-- docs/html/search/classes_0.js to classes_2.js, the data of results pages of one section.
use fiberio.Base.{List, [], ◌∷◌, codes}
use fiberio.SearchResults.Create.{Entry, entry, result}

abbrev pub classes_0 : List Entry
classes_0 =
    entry (codes "address_5ffamily_5fnot_5fsupported_5ferror")
      (codes "address_family_not_supported_error")
      (result (codes "../classfiberio_1_1address__family__not__supported__error.html") 1
          (codes "fiberio")
        ∷ [])
    ∷ []

abbrev pub classes_1 : List Entry
classes_1 =
    entry (codes "io_5ferror") (codes "io_error")
      (result (codes "../classfiberio_1_1io__error.html") 1 (codes "fiberio") ∷ [])
    ∷ []

abbrev pub classes_2 : List Entry
classes_2 =
    entry (codes "server_5fsocket") (codes "server_socket")
      (result (codes "../classfiberio_1_1server__socket.html") 1 (codes "fiberio") ∷ [])
    ∷ entry (codes "socket") (codes "socket")
        (result (codes "../classfiberio_1_1socket.html") 1 (codes "fiberio") ∷ [])
    ∷ entry (codes "socket_5fclosed_5ferror") (codes "socket_closed_error")
        (result (codes "../classfiberio_1_1socket__closed__error.html") 1 (codes "fiberio") ∷ [])
    ∷ entry (codes "socket_5fdevice") (codes "socket_device") (
        result (codes "../classfiberio_1_1detail_1_1socket__device.html") 1
          (codes "fiberio::detail")
        ∷ [])
    ∷ []
