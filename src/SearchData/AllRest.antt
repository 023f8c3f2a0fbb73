-- ===== src/SearchData/AllRest.antt =====
-- docs/html/search/all_a.js to all_e.js, the data of results pages of one section.
use fiberio.Base.{List, [], ◌∷◌, codes}
use fiberio.SearchResults.Create.{Entry, entry, result}

abbrev pub all_a : List Entry
all_a =
    entry (codes "read") (codes "read") (
      result
        (codes "../classfiberio_1_1detail_1_1socket__device.html#afdc8eba74b6c2a3618bbf1afd31d5c0c")
        1 (codes "fiberio::detail::socket_device::read()")
      ∷ result (codes "../classfiberio_1_1socket.html#afbfbe04fee1e7f55c0b870bc6d129c38") 1
          (codes "fiberio::socket::read()")
      ∷ [])
    ∷ entry (codes "read_5fexactly") (codes "read_exactly") (
        result (codes "../classfiberio_1_1socket.html#a9afd6baa492153689a923c22ec0d3039") 1
          (codes "fiberio::socket")
        ∷ [])
    ∷ entry (codes "read_5fstring") (codes "read_string") (
        result (codes "../classfiberio_1_1socket.html#a61e92bf69b4cbc6541c5246ee9214e65") 1
          (codes "fiberio::socket")
        ∷ [])
    ∷ entry (codes "read_5fstring_5fexactly") (codes "read_string_exactly") (
        result (codes "../classfiberio_1_1socket.html#ae7308a0269bdf33366e62659b4560dd0") 1
          (codes "fiberio::socket")
        ∷ [])
    ∷ []

abbrev pub all_b : List Entry
all_b =
    entry (codes "server_5fsocket") (codes "server_socket") (
      result (codes "../classfiberio_1_1server__socket.html") 1 (codes "fiberio::server_socket")
      ∷ result (codes "../classfiberio_1_1server__socket.html#a6e8960e2d62d1e6c50cb2bc5672413df") 1
          (codes "fiberio::server_socket::server_socket()")
      ∷ result (codes "../classfiberio_1_1server__socket.html#aa7782a82d490a3d9bc9b3310091b79ad") 1
          (codes "fiberio::server_socket::server_socket(server_socket &amp;&amp;other)")
      ∷ [])
    ∷ entry (codes "server_5fsocket_2ehpp") (codes "server_socket.hpp")
        (result (codes "../server__socket_8hpp.html") 1 ([]) ∷ [])
    ∷ entry (codes "socket") (codes "socket") (
        result (codes "../classfiberio_1_1socket.html") 1 (codes "fiberio::socket")
        ∷ result (codes "../classfiberio_1_1socket.html#adbaccae287437cbffea61ef63a5b335a") 1
            (codes "fiberio::socket::socket()")
        ∷ result (codes "../classfiberio_1_1socket.html#a3505d5b5442fbab659a03171c8c1380f") 1
            (codes "fiberio::socket::socket(const socket &amp;)")
        ∷ result (codes "../classfiberio_1_1socket.html#aef55e2d6e511de134c1765042688c4eb") 1
            (codes "fiberio::socket::socket(socket &amp;&amp;)")
        ∷ result (codes "../classfiberio_1_1socket.html#ae698291add8203878d9367d539c2077f") 1
            (codes "fiberio::socket::socket(std::shared_ptr&lt; socket_impl &gt; &amp;&amp;impl)")
        ∷ [])
    ∷ entry (codes "socket_2ehpp") (codes "socket.hpp")
        (result (codes "../socket_8hpp.html") 1 ([]) ∷ [])
    ∷ entry (codes "socket_5fclosed_5ferror") (codes "socket_closed_error") (
        result (codes "../classfiberio_1_1socket__closed__error.html") 1
          (codes "fiberio::socket_closed_error")
        ∷ result
            (codes
              "../classfiberio_1_1socket__closed__error.html#a1dd438e328c22f7f3da09aae8bca60b0")
            1 (codes "fiberio::socket_closed_error::socket_closed_error()")
        ∷ [])
    ∷ entry (codes "socket_5fdevice") (codes "socket_device") (
        result (codes "../classfiberio_1_1detail_1_1socket__device.html") 1
          (codes "fiberio::detail::socket_device")
        ∷ result
            (codes
              "../classfiberio_1_1detail_1_1socket__device.html#a11c605ec89c6e0225859ec2757f84c94")
            1 (codes "fiberio::detail::socket_device::socket_device()")
        ∷ [])
    ∷ entry (codes "socket_5fstream") (codes "socket_stream") (
        result (codes "../namespacefiberio.html#a334505dc79d8951a1db4c0543505d855") 1
          (codes "fiberio")
        ∷ [])
    ∷ entry (codes "socket_5fstreambuf") (codes "socket_streambuf") (
        result (codes "../namespacefiberio.html#aaddb547a03a494fbb2730f2c6ee74f48") 1
          (codes "fiberio")
        ∷ [])
    ∷ []

abbrev pub all_c : List Entry
all_c =
    entry (codes "use_5fon_5fthis_5fthread") (codes "use_on_this_thread") (
      result (codes "../namespacefiberio.html#aaab0fbbbddd380677ff818cff5b5c367") 1
        (codes "fiberio")
      ∷ [])
    ∷ []

abbrev pub all_d : List Entry
all_d =
    entry (codes "write") (codes "write") (
      result
        (codes "../classfiberio_1_1detail_1_1socket__device.html#afa636fb67d498b5d33f05a59916cec64")
        1 (codes "fiberio::detail::socket_device::write()")
      ∷ result (codes "../classfiberio_1_1socket.html#a315c9f1e079e9597bc64437f890b6e54") 1
          (codes "fiberio::socket::write(const char *data, std::size_t len)")
      ∷ result (codes "../classfiberio_1_1socket.html#a02cdf65aa88d42f00dd37dd3608403c5") 1
          (codes "fiberio::socket::write(const std::string &amp;data)")
      ∷ [])
    ∷ []

abbrev pub all_e : List Entry
all_e =
    entry (codes "_7eserver_5fsocket") (codes "~server_socket") (
      result (codes "../classfiberio_1_1server__socket.html#a7d6f9397e7a6bd045aee1d63973a05d9") 1
        (codes "fiberio::server_socket")
      ∷ [])
    ∷ entry (codes "_7esocket") (codes "~socket") (
        result (codes "../classfiberio_1_1socket.html#aaa34d82a9c8cb70e9fa8bdeffe44e80e") 1
          (codes "fiberio::socket")
        ∷ [])
    ∷ []
