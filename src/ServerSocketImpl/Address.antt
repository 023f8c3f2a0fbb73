-- ===== src/ServerSocketImpl/Address.antt =====
-- What `bind` leaves as the address of the socket.
use fiberio.Base.{ℕ, ◌≡◌, some, Text, arith}
use fiberio.Errors.{Uv, ok}
use fiberio.ServerSocketImpl.{
  ServerSocketImpl, SockAddr, inet, inet6, other_family, BindRun, Net, update_address, bind,
}

-- The address of `s` is the one that the system reports, or in an unknown family the requested one.
abbrev Reported : Net → Text → ℕ → SockAddr → ServerSocketImpl → Type 0
Reported net host port (inet a p) s = (net.inet_ntop a ≡ some s.host) × (s.port ≡ net.ntohs p)
Reported net host port (inet6 a p) s = (net.inet_ntop6 a ≡ some s.host) × (s.port ≡ net.ntohs p)
Reported net host port other_family s = (s.host ≡ host) × (s.port ≡ port)

module _ (uv : Uv) (net : Net) (host : Text) (port : ℕ) (b : BindRun) where
  -- A `bind` that succeeds leaves the host and port that the system reports for the socket, and in
  -- an unknown address family the ones that were asked for.
  bind-Reported :
      (s : ServerSocketImpl)
      → (bind uv net host port b s).1 ≡ ok tt
      → Reported net host port b.name (bind uv net host port b s).0
  unfolding bind update_address
  bind-Reported s h = ground arith
