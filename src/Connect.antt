-- ===== src/Connect.antt =====
-- `socket_impl::connect` of src/socket_impl.cpp and the name look-up of src/addrinfo.cpp. Each status
-- is what libuv returns or gives to the callback that the fiber waits for.
use fiberio.Base.{Bool, true, false, ◌++◌, if◌then◌else◌, Text, codes}
use fiberio.Base.Int.{ℤ}
use fiberio.Errors.{
  Error, socket_closed_error, address_family_not_supported_error, io_error, uv_error, Uv, Result,
  ok, err, ◌>>◌, check_uv_status,
}

-- `getaddrinfo(node, service)`: the look-up is started, and its callback gives the result.
unfoldable pub getaddrinfo {ℓ} : {A : Type ℓ} → Uv → ℤ → ℤ → A → Result A
getaddrinfo uv started done res = check_uv_status uv started >> check_uv_status uv done >> ok res

-- `what()` of a `uv_error`
abbrev pub what : Uv → ℤ → Text
what uv status = uv.uv_err_name status ++ (codes ": " ++ uv.uv_strerror status)

-- `catch (uv_error& e) { throw io_error{ e.what() }; }`
abbrev pub as_io_error : Uv → Result (Unit {0}) → Result (Unit {0})
as_io_error uv (err (uv_error status)) = err (io_error (what uv status))
as_io_error uv r = r

pub record ConnectRun : Type 0 where
  pub lookup_started : ℤ
  pub lookup_done : ℤ
  pub connect_started : ℤ
  pub connect_done : ℤ

-- `connect(host, port)` on a socket that is `closed` or not.
unfoldable pub connect : Uv → Bool → ConnectRun → Result (Unit {0})
connect uv closed c =
    if closed
    then err socket_closed_error
    else as_io_error uv (
        getaddrinfo uv c.lookup_started c.lookup_done tt
        >> check_uv_status uv c.connect_started
        >> check_uv_status uv c.connect_done)

-- The exceptions of include/fiberio/exceptions.hpp: `io_error` and the classes derived from it.
abbrev pub is_io_error : Error → Bool
is_io_error socket_closed_error = true
is_io_error address_family_not_supported_error = true
is_io_error (io_error _) = true
is_io_error _ = false
