-- ===== src/Handles/Sockets.antt =====
-- `socket_impl` and its `close` as an implementation that objects own.
use fiberio.Base.{◌≡◌, false, not, arith}
use fiberio.Base.Int.{ℤ}
use fiberio.Errors.{Uv}
use fiberio.Handles.{Impl}
use fiberio.SocketImpl.{SocketImpl, new, user, close}

module _ (uv : Uv) (status : ℤ) where
  -- `close` up to its wait, whatever `uv_shutdown` returns.
  abbrev pub sockets : Impl SocketImpl
  sockets = record {
    new = new;
    is_open = λ s. not s.closed;
    close = λ s. (close uv user status s).0;
  }

  pub close-closes : (s : SocketImpl) → not (close uv user status s).0.closed ≡ false
  unfolding close
  close-closes s = ground arith
