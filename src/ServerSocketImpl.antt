-- ===== src/ServerSocketImpl.antt =====
-- src/server_socket_impl.cpp: a listening socket, its address and the connections that wait.
pub mod System
pub mod Address
use fiberio.Base.{
  ℕ, suc, ◌+◌, ◌-◌, [], Bool, true, false, not, ◌&&◌, Option, none, some, ◌==◌, if◌then◌else◌, Text,
  codes,
}
use fiberio.Base.Int.{ℤ}
use fiberio.Errors.{Error, runtime_error, Uv, Result, ok, err, ◌>>=◌, ◌>>◌, check_uv_status}

pub record ServerSocketImpl : Type 0 where
  pub pending_connections : ℕ
  pub closed : Bool
  pub host : Text
  pub port : ℕ

abbrev pub new : ServerSocketImpl
new = record { pending_connections = 0; closed = false; host = []; port = 0 }

-- What a call came to.
pub data Outcome : Type 0 where
  accepted closed_down : Outcome
  threw : Error → Outcome

-- Where a fiber stands: in the loop of `accept`, asleep until it is notified, or in the wait of
-- `close` for the handle.
pub data Pc : Type 0 where
  idle : Pc
  accept_wait : Bool → Pc
  close_wait : Pc
  result : Outcome → Pc

-- `on_connection(status)`: the status is not looked at.
unfoldable pub on_connection : ℤ → ServerSocketImpl → ServerSocketImpl
on_connection status s = record s { pending_connections = suc s.pending_connections }

-- `close()` up to its wait.
unfoldable pub close : ServerSocketImpl → ServerSocketImpl × Pc
close s = if s.closed then (s, result closed_down) else (record s { closed = true }, close_wait)

module _ (uv : Uv) where
  -- `do_accept` of the new socket; `status` is what `uv_accept` returns.
  unfoldable pub do_accept : ℤ → Pc
  do_accept status = elim (check_uv_status uv status) [
    | ok _ ↦ result accepted
    | err e ↦ result (threw e)
  ]

  -- The loop of `accept`, entered or woken, and what follows it.
  unfoldable pub accept : ℤ → ServerSocketImpl → ServerSocketImpl × Pc
  accept status s =
      if s.pending_connections == 0 && not s.closed
      then (s, accept_wait true)
      else if s.closed
      then (s, result (threw (runtime_error (codes "connection closed"))))
      else (record s { pending_connections = s.pending_connections - 1 }, do_accept status)

  -- `listen(backlog)`; `status` is what `uv_listen` returns.
  unfoldable pub listen : ℤ → Result (Unit {0})
  listen status = check_uv_status uv status

-- The address that `uv_tcp_getsockname` gives, by its family: the address bytes and the port in
-- network order.
pub data SockAddr : Type 0 where
  inet : Text → ℕ → SockAddr
  inet6 : Text → ℕ → SockAddr
  other_family : SockAddr

-- What `bind` meets outside: the two statuses of the name look-up, the status of `uv_tcp_bind`, and
-- the status and result of `uv_tcp_getsockname`.
pub record BindRun : Type 0 where
  pub lookup_started : ℤ
  pub lookup_done : ℤ
  pub bound : ℤ
  pub named : ℤ
  pub name : SockAddr

-- `inet_ntop` by family, and `ntohs`.
pub record Net : Type 0 where
  pub inet_ntop : Text → Option Text
  pub inet_ntop6 : Text → Option Text
  pub ntohs : ℕ → ℕ

-- `addr_to_string`
abbrev pub addr_to_string : Option Text → Result Text
addr_to_string none = err (runtime_error (codes "inet_ntop failed"))
addr_to_string (some s) = ok s

abbrev pub set_address : ServerSocketImpl → ℕ → Result Text → ServerSocketImpl × Result (Unit {0})
set_address s port (ok host) = (record s { host = host; port = port }, ok tt)
set_address s port (err e) = (s, err e)

abbrev pub when_ok :
    Result (Unit {0})
    → ServerSocketImpl
    → ServerSocketImpl × Result (Unit {0})
    → ServerSocketImpl × Result (Unit {0})
when_ok (ok _) s next = next
when_ok (err e) s next = (s, err e)

module _ (uv : Uv) (net : Net) where
  -- `update_address()`
  unfoldable pub update_address :
      ℤ → SockAddr → ServerSocketImpl → ServerSocketImpl × Result (Unit {0})
  update_address status name s = when_ok (check_uv_status uv status) s (elim name [
    | inet a p ↦ set_address s (net.ntohs p) (addr_to_string (net.inet_ntop a))
    | inet6 a p ↦ set_address s (net.ntohs p) (addr_to_string (net.inet_ntop6 a))
    | other_family ↦ (s, ok tt)
  ])

  -- `bind(host, port)`
  unfoldable pub bind : Text → ℕ → BindRun → ServerSocketImpl → ServerSocketImpl × Result (Unit {0})
  bind host port b this =
      let s = record this { host = host; port = port } in
      when_ok
        (check_uv_status uv b.lookup_started
          >> check_uv_status uv b.lookup_done
          >> check_uv_status uv b.bound)
        s (update_address b.named b.name s)
