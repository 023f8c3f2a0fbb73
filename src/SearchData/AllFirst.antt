-- ===== src/SearchData/AllFirst.antt =====
-- docs/html/search/all_0.js to all_9.js, the data of results pages of one section.
use fiberio.Base.{List, [], ◌∷◌, codes}
use fiberio.SearchResults.Create.{Entry, entry, result}

abbrev pub all_0 : List Entry
all_0 =
    entry (codes "accept") (codes "accept") (
      result (codes "../classfiberio_1_1server__socket.html#ae443cd26c283102a8e32aaa44e518bbe") 1
        (codes "fiberio::server_socket")
      ∷ [])
    ∷ entry (codes "address_5ffamily_5fnot_5fsupported_5ferror")
        (codes "address_family_not_supported_error")
        (result (codes "../classfiberio_1_1address__family__not__supported__error.html") 1
            (codes "fiberio::address_family_not_supported_error")
          ∷ result
              (codes
                "../classfiberio_1_1address__family__not__supported__error.html#a053e23672b69f4d28d46ee00ffe65248")
              1
              (codes
                "fiberio::address_family_not_supported_error::address_family_not_supported_error()")
          ∷ [])
    ∷ entry (codes "all_2ehpp") (codes "all.hpp") (result (codes "../all_8hpp.html") 1 ([]) ∷ [])
    ∷ []

abbrev pub all_1 : List Entry
all_1 =
    entry (codes "bind") (codes "bind") (
      result (codes "../classfiberio_1_1server__socket.html#a40a48d251718ae31d5c3f513904aa2f8") 1
        (codes "fiberio::server_socket")
      ∷ [])
    ∷ []

abbrev pub all_2 : List Entry
all_2 =
    entry (codes "close") (codes "close") (
      result
        (codes "../classfiberio_1_1detail_1_1socket__device.html#a12e21e41f72e85a92336a89a9c943004")
        1 (codes "fiberio::detail::socket_device::close()")
      ∷ result (codes "../classfiberio_1_1server__socket.html#adea9be2287382df832381efd4ee7e720") 1
          (codes "fiberio::server_socket::close()")
      ∷ result (codes "../classfiberio_1_1socket.html#a0bfc24418859bd2a1845ea6b5733a568") 1
          (codes "fiberio::socket::close()")
      ∷ [])
    ∷ entry (codes "connect") (codes "connect") (
        result (codes "../classfiberio_1_1socket.html#aca5aa4d6b61abd6806d8a84fce3e11c5") 1
          (codes "fiberio::socket")
        ∷ [])
    ∷ []

abbrev pub all_3 : List Entry
all_3 =
    entry (codes "default_5fbuf_5fsize") (codes "DEFAULT_BUF_SIZE") (
      result (codes "../classfiberio_1_1socket.html#a7e5d7a51cf2f07adccd015efe00b55e7") 1
        (codes "fiberio::socket")
      ∷ [])
    ∷ []

abbrev pub all_4 : List Entry
all_4 =
    entry (codes "exceptions_2ehpp") (codes "exceptions.hpp")
      (result (codes "../exceptions_8hpp.html") 1 ([]) ∷ [])
    ∷ []

abbrev pub all_5 : List Entry
all_5 =
    entry (codes "detail") (codes "detail")
      (result (codes "../namespacefiberio_1_1detail.html") 1 (codes "fiberio") ∷ [])
    ∷ entry (codes "fiberio") (codes "fiberio")
        (result (codes "../namespacefiberio.html") 1 ([]) ∷ [])
    ∷ entry (codes "fiberio_2ehpp") (codes "fiberio.hpp")
        (result (codes "../fiberio_8hpp.html") 1 ([]) ∷ [])
    ∷ []

abbrev pub all_6 : List Entry
all_6 =
    entry (codes "get_5fhost") (codes "get_host") (
      result (codes "../classfiberio_1_1server__socket.html#adf7ddc4115714eebcfc17f763f4ad209") 1
        (codes "fiberio::server_socket")
      ∷ [])
    ∷ entry (codes "get_5fport") (codes "get_port") (
        result (codes "../classfiberio_1_1server__socket.html#a1663e59957aa18781d9f310329588db1") 1
          (codes "fiberio::server_socket")
        ∷ [])
    ∷ []

abbrev pub all_7 : List Entry
all_7 =
    entry (codes "io_5ferror") (codes "io_error") (
      result (codes "../classfiberio_1_1io__error.html") 1 (codes "fiberio::io_error")
      ∷ result (codes "../classfiberio_1_1io__error.html#aa42972b5f78c883e873118536e3e0f5a") 1
          (codes "fiberio::io_error::io_error()")
      ∷ [])
    ∷ entry (codes "iostream_2ehpp") (codes "iostream.hpp")
        (result (codes "../iostream_8hpp.html") 1 ([]) ∷ [])
    ∷ entry (codes "is_5fopen") (codes "is_open") (
        result (codes "../classfiberio_1_1socket.html#a4448735cbcea844127703c19d67cd7ca") 1
          (codes "fiberio::socket")
        ∷ [])
    ∷ []

abbrev pub all_8 : List Entry
all_8 =
    entry (codes "listen") (codes "listen") (
      result (codes "../classfiberio_1_1server__socket.html#a429d89bc531192da15f5d62276dec905") 1
        (codes "fiberio::server_socket")
      ∷ [])
    ∷ []

abbrev pub all_9 : List Entry
all_9 =
    entry (codes "overview") (codes "Overview") (result (codes "../index.html") 1 ([]) ∷ [])
    ∷ entry (codes "operator_3d") (codes "operator=") (
        result (codes "../classfiberio_1_1socket.html#a1a2d41a3e3f54a333072f129bcba1de5") 1
          (codes "fiberio::socket::operator=(const socket &amp;other)")
        ∷ result (codes "../classfiberio_1_1socket.html#a66e4e08e5d266bef0cbcabd87147765d") 1
            (codes "fiberio::socket::operator=(socket &amp;&amp;other)")
        ∷ [])
    ∷ []
