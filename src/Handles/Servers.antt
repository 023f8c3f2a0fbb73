-- ===== src/Handles/Servers.antt =====
-- `server_socket_impl` of src/server_socket_impl.cpp as an implementation that objects own.
use fiberio.Base.{
  ◌≡◌, refl, false, not, List, map, some, if◌then◌else◌, arith, Bool-cases, inl, inr,
}
use fiberio.ServerSocketImpl.{ServerSocketImpl, new, close}
use fiberio.Handles.{Impl, live, dead, Store, finish, run, no_objects}
use fiberio.Handles.Unique.{ServerOp, op, Single, run-no_objects-Single}

-- `~server_socket_impl`, up to the wait of its `close`.
destruct_server : ServerSocketImpl → ServerSocketImpl
destruct_server s = if s.closed then s else (close s).0

abbrev servers : Impl ServerSocketImpl
servers = record { new = new; is_open = λ s. not s.closed; close = λ s. (close s).0 }

close-closes : (s : ServerSocketImpl) → not (close s).0.closed ≡ false
unfolding close
close-closes s = ground arith

-- What the owners' model does to an implementation without an owner is what its destructor does.
finish-destruct_server : (s : ServerSocketImpl) → finish servers (live s) ≡ dead (destruct_server s)
unfolding destruct_server
finish-destruct_server s = elim (Bool-cases s.closed) [ inl c ↦ rw c refl | inr o ↦ rw o refl ]

-- An implementation lives as long as it has its one owner, and is closed after it.
server-Single :
    (os : List (ServerOp ServerSocketImpl)) (s : Store ServerSocketImpl)
    → run servers (map op os) no_objects ≡ some s
    → Single servers s
server-Single os s e = run-no_objects-Single servers close-closes os s e
