-- ===== src/SearchData/Functions.antt =====
-- docs/html/search/functions_0.js to functions_b.js, the data of results pages of one section.
use fiberio.Base.{List, [], ◌∷◌, codes}
use fiberio.SearchResults.Create.{Entry, entry, result}

abbrev pub functions_0 : List Entry
functions_0 =
    entry (codes "accept") (codes "accept") (
      result (codes "../classfiberio_1_1server__socket.html#ae443cd26c283102a8e32aaa44e518bbe") 1
        (codes "fiberio::server_socket")
      ∷ [])
    ∷ entry (codes "address_5ffamily_5fnot_5fsupported_5ferror")
        (codes "address_family_not_supported_error")
        (result
            (codes
              "../classfiberio_1_1address__family__not__supported__error.html#a053e23672b69f4d28d46ee00ffe65248")
            1 (codes "fiberio::address_family_not_supported_error")
          ∷ [])
    ∷ []

abbrev pub functions_1 : List Entry
functions_1 =
    entry (codes "bind") (codes "bind") (
      result (codes "../classfiberio_1_1server__socket.html#a40a48d251718ae31d5c3f513904aa2f8") 1
        (codes "fiberio::server_socket")
      ∷ [])
    ∷ []

abbrev pub functions_2 : List Entry
functions_2 =
    entry (codes "close") (codes "close") (
      result
        (codes "../classfiberio_1_1detail_1_1socket__device.html#a12e21e41f72e85a92336a89a9c943004")
        1 (codes "fiberio::detail::socket_device::close()")
      ∷ result (codes "../classfiberio_1_1server__socket.html#adea9be2287382df832381efd4ee7e720") 1
          (codes "fiberio::server_socket::close()")
      ∷ result (codes "../classfiberio_1_1socket.html#a0bfc24418859bd2a1845ea6b5733a568") 1
          (codes "fiberio::socket::close()")
      ∷ [])
    ∷ entry (codes "connect") (codes "connect") (
        result (codes "../classfiberio_1_1socket.html#aca5aa4d6b61abd6806d8a84fce3e11c5") 1
          (codes "fiberio::socket")
        ∷ [])
    ∷ []

abbrev pub functions_3 : List Entry
functions_3 =
    entry (codes "get_5fhost") (codes "get_host") (
      result (codes "../classfiberio_1_1server__socket.html#adf7ddc4115714eebcfc17f763f4ad209") 1
        (codes "fiberio::server_socket")
      ∷ [])
    ∷ entry (codes "get_5fport") (codes "get_port") (
        result (codes "../classfiberio_1_1server__socket.html#a1663e59957aa18781d9f310329588db1") 1
          (codes "fiberio::server_socket")
        ∷ [])
    ∷ []

abbrev pub functions_4 : List Entry
functions_4 =
    entry (codes "io_5ferror") (codes "io_error") (
      result (codes "../classfiberio_1_1io__error.html#aa42972b5f78c883e873118536e3e0f5a") 1
        (codes "fiberio::io_error")
      ∷ [])
    ∷ entry (codes "is_5fopen") (codes "is_open") (
        result (codes "../classfiberio_1_1socket.html#a4448735cbcea844127703c19d67cd7ca") 1
          (codes "fiberio::socket")
        ∷ [])
    ∷ []

abbrev pub functions_5 : List Entry
functions_5 =
    entry (codes "listen") (codes "listen") (
      result (codes "../classfiberio_1_1server__socket.html#a429d89bc531192da15f5d62276dec905") 1
        (codes "fiberio::server_socket")
      ∷ [])
    ∷ []

abbrev pub functions_6 : List Entry
functions_6 =
    entry (codes "operator_3d") (codes "operator=") (
      result (codes "../classfiberio_1_1socket.html#a1a2d41a3e3f54a333072f129bcba1de5") 1
        (codes "fiberio::socket::operator=(const socket &amp;other)")
      ∷ result (codes "../classfiberio_1_1socket.html#a66e4e08e5d266bef0cbcabd87147765d") 1
          (codes "fiberio::socket::operator=(socket &amp;&amp;other)")
      ∷ [])
    ∷ []

abbrev pub functions_7 : List Entry
functions_7 =
    entry (codes "read") (codes "read") (
      result
        (codes "../classfiberio_1_1detail_1_1socket__device.html#afdc8eba74b6c2a3618bbf1afd31d5c0c")
        1 (codes "fiberio::detail::socket_device::read()")
      ∷ result (codes "../classfiberio_1_1socket.html#afbfbe04fee1e7f55c0b870bc6d129c38") 1
          (codes "fiberio::socket::read()")
      ∷ [])
    ∷ entry (codes "read_5fexactly") (codes "read_exactly") (
        result (codes "../classfiberio_1_1socket.html#a9afd6baa492153689a923c22ec0d3039") 1
          (codes "fiberio::socket")
        ∷ [])
    ∷ entry (codes "read_5fstring") (codes "read_string") (
        result (codes "../classfiberio_1_1socket.html#a61e92bf69b4cbc6541c5246ee9214e65") 1
          (codes "fiberio::socket")
        ∷ [])
    ∷ entry (codes "read_5fstring_5fexactly") (codes "read_string_exactly") (
        result (codes "../classfiberio_1_1socket.html#ae7308a0269bdf33366e62659b4560dd0") 1
          (codes "fiberio::socket")
        ∷ [])
    ∷ []

abbrev pub functions_8 : List Entry
functions_8 =
    entry (codes "server_5fsocket") (codes "server_socket") (
      result (codes "../classfiberio_1_1server__socket.html#a6e8960e2d62d1e6c50cb2bc5672413df") 1
        (codes "fiberio::server_socket::server_socket()")
      ∷ result (codes "../classfiberio_1_1server__socket.html#aa7782a82d490a3d9bc9b3310091b79ad") 1
          (codes "fiberio::server_socket::server_socket(server_socket &amp;&amp;other)")
      ∷ [])
    ∷ entry (codes "socket") (codes "socket") (
        result (codes "../classfiberio_1_1socket.html#adbaccae287437cbffea61ef63a5b335a") 1
          (codes "fiberio::socket::socket()")
        ∷ result (codes "../classfiberio_1_1socket.html#a3505d5b5442fbab659a03171c8c1380f") 1
            (codes "fiberio::socket::socket(const socket &amp;)")
        ∷ result (codes "../classfiberio_1_1socket.html#aef55e2d6e511de134c1765042688c4eb") 1
            (codes "fiberio::socket::socket(socket &amp;&amp;)")
        ∷ result (codes "../classfiberio_1_1socket.html#ae698291add8203878d9367d539c2077f") 1
            (codes "fiberio::socket::socket(std::shared_ptr&lt; socket_impl &gt; &amp;&amp;impl)")
        ∷ [])
    ∷ entry (codes "socket_5fclosed_5ferror") (codes "socket_closed_error") (
        result
          (codes "../classfiberio_1_1socket__closed__error.html#a1dd438e328c22f7f3da09aae8bca60b0")
          1 (codes "fiberio::socket_closed_error")
        ∷ [])
    ∷ entry (codes "socket_5fdevice") (codes "socket_device") (
        result
          (codes
            "../classfiberio_1_1detail_1_1socket__device.html#a11c605ec89c6e0225859ec2757f84c94")
          1 (codes "fiberio::detail::socket_device")
        ∷ [])
    ∷ []

abbrev pub functions_9 : List Entry
functions_9 =
    entry (codes "use_5fon_5fthis_5fthread") (codes "use_on_this_thread") (
      result (codes "../namespacefiberio.html#aaab0fbbbddd380677ff818cff5b5c367") 1
        (codes "fiberio")
      ∷ [])
    ∷ []

abbrev pub functions_a : List Entry
functions_a =
    entry (codes "write") (codes "write") (
      result
        (codes "../classfiberio_1_1detail_1_1socket__device.html#afa636fb67d498b5d33f05a59916cec64")
        1 (codes "fiberio::detail::socket_device::write()")
      ∷ result (codes "../classfiberio_1_1socket.html#a315c9f1e079e9597bc64437f890b6e54") 1
          (codes "fiberio::socket::write(const char *data, std::size_t len)")
      ∷ result (codes "../classfiberio_1_1socket.html#a02cdf65aa88d42f00dd37dd3608403c5") 1
          (codes "fiberio::socket::write(const std::string &amp;data)")
      ∷ [])
    ∷ []

abbrev pub functions_b : List Entry
functions_b =
    entry (codes "_7eserver_5fsocket") (codes "~server_socket") (
      result (codes "../classfiberio_1_1server__socket.html#a7d6f9397e7a6bd045aee1d63973a05d9") 1
        (codes "fiberio::server_socket")
      ∷ [])
    ∷ entry (codes "_7esocket") (codes "~socket") (
        result (codes "../classfiberio_1_1socket.html#aaa34d82a9c8cb70e9fa8bdeffe44e80e") 1
          (codes "fiberio::socket")
        ∷ [])
    ∷ []
