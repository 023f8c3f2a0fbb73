-- ===== src/SocketImpl/Call/Implements.antt =====
-- `read` of src/socket_impl.cpp as the Reader that src/socket.cpp is written against.
use fiberio.Base.{ℕ, ◌≤◌, ◌≡◌, refl, Bool, false, not, [], ◌++◌, Text, length, arith}
use fiberio.Base.Int.{negsuc}
use fiberio.Errors.{socket_closed_error, Uv, ok, err}
use fiberio.Reader.{Reader}
use fiberio.Socket.{read_exactly}
use fiberio.Socket.Exactly.{Filled, read_exactly-Filled}
use fiberio.Socket.Order.{Delivered, read_exactly-Delivered}
use fiberio.SocketImpl.{read}
use fiberio.SocketImpl.Call.{Wire, call}
use fiberio.SocketImpl.Call.Contract.{Kept-ok, call-Kept}

module _ (uv : Uv) (enobufs eof : ℕ) (is_eof : uv.uv_eof ≡ negsuc eof) where
  abbrev pub is_open : Wire → Bool
  is_open w = not w.socket.closed

  call-fits :
      (size : ℕ) (w : Wire) (bytes : Text)
      → (call uv enobufs size w).0 ≡ ok bytes
      → length bytes ≤ size
  call-fits size w bytes h = (Kept-ok size w _ bytes (call-Kept uv enobufs eof is_eof size w) h).0

  call-ended :
      (size : ℕ) (w : Wire)
      → (call uv enobufs size w).0 ≡ ok []
      → is_open (call uv enobufs size w).1 ≡ false
  call-ended size w h =
      rw ((Kept-ok size w _ [] (call-Kept uv enobufs eof is_eof size w) h).2 refl) refl

  call-in_order :
      (size : ℕ) (w : Wire) (bytes : Text)
      → (call uv enobufs size w).0 ≡ ok bytes
      → w.coming ≡ bytes ++ (call uv enobufs size w).1.coming
  call-in_order size w bytes h =
      (Kept-ok size w _ bytes (call-Kept uv enobufs eof is_eof size w) h).1

  call-refused :
      (size : ℕ) (w : Wire)
      → is_open w ≡ false
      → call uv enobufs size w ≡ (err socket_closed_error, w)
  unfolding call read
  call-refused size w h = ground arith

  unfoldable pub socket_reader : Reader Wire
  unfolding call-fits call-ended call-refused call-in_order
  socket_reader = record {
    read = call uv enobufs;
    is_open = is_open;
    fits = call-fits;
    ended = call-ended;
    refused = call-refused;
    coming = λ w. w.coming;
    in_order = call-in_order;
  }

  pub read_exactly-socket :
      (size : ℕ) (w : Wire)
      → let r = read_exactly socket_reader size w in
        Filled size r × Delivered (λ (v : Wire). v.coming) w.coming r
  unfolding socket_reader
  read_exactly-socket size w =
      (read_exactly-Filled socket_reader size w, read_exactly-Delivered socket_reader size w)
