-- ===== src/SocketImpl/Call/ImplementsDuplex.antt =====
-- `read` and `write` of src/socket_impl.cpp as the Duplex that a program uses.
use fiberio.Base.{ℕ, ◌≡◌, refl, false, true, ◌++◌, Text, take, length, sym, ap, ◌∙◌, arith}
use fiberio.Base.Int.{negsuc}
use fiberio.Errors.{Error, socket_closed_error, Uv, Result, ok, err}
use fiberio.Reader.{Reader}
use fiberio.Duplex.{Duplex}
use fiberio.SocketImpl.Call.{Wire}
use fiberio.SocketImpl.Call.Contract.{take-length, Kept-coming, call-Kept}
use fiberio.SocketImpl.Call.Implements.{socket_reader}
use fiberio.SocketImpl.Call.Writing.{Line, call_write, Written, call_write-Written}

-- A Reader of a part of a state.
abbrev on_line : Reader Wire → Reader Line
on_line r = record {
  read = λ size l. let (bytes, w) = r.read size l.wire in (bytes, record l { wire = w });
  is_open = λ l. r.is_open l.wire;
  fits = λ size l bytes h. r.fits size l.wire bytes h;
  ended = λ size l h. r.ended size l.wire h;
  refused = λ size l h.
      ap (λ (p : Result Text × Wire). let (bytes, w) = p in (bytes, record l { wire = w }))
        (r.refused size l.wire h);
  coming = λ l. r.coming l.wire;
  in_order = λ size l bytes h. r.in_order size l.wire bytes h;
}

-- What Written says of the calls that return, and of those that throw.
pub Written-sends :
    (uv : Uv) (bytes : Text) (l : Line) (r : Result (Unit {0}) × Line)
    → Written uv bytes l r
    → r.0 ≡ ok tt
    → r.1.sent ≡ l.sent ++ bytes
Written-sends uv bytes l (ok _, l') v h = v.2
Written-sends uv bytes l (err e, l') v h = absurd (cc h)

pub Written-first :
    (uv : Uv) (bytes : Text) (l : Line) (r : Result (Unit {0}) × Line)
    → Written uv bytes l r
    → (k : ℕ) × (r.1.sent ≡ l.sent ++ take k bytes)
Written-first uv bytes l (ok _, l') v =
    (length bytes, v.2 ∙ ap (λ (t : Text). l.sent ++ t) (sym (take-length bytes)))
Written-first uv bytes l (err e, l') v = v.1

pub Written-wire :
    (uv : Uv) (bytes : Text) (l : Line) (r : Result (Unit {0}) × Line)
    → Written uv bytes l r
    → r.1.wire ≡ l.wire
Written-wire uv bytes l (ok _, l') v = v.1
Written-wire uv bytes l (err e, l') v = v.0

pub Written-refuses :
    (uv : Uv) (bytes : Text) (l : Line) (r : Result (Unit {0}) × Line)
    → Written uv bytes l r
    → l.wire.socket.closed ≡ true
    → r ≡ (err socket_closed_error, l)
Written-refuses uv bytes l (ok _, l') v c = absurd (cc (c, v.0))
Written-refuses uv bytes l (err e, l') v c = let (p, q) = v.2 c in cc (p, q)

module _ (uv : Uv) (enobufs eof : ℕ) (is_eof : uv.uv_eof ≡ negsuc eof) where
  -- What libuv and the socket do with `size` bytes to read, and with the bytes of a `write`.
  abbrev pub line_reader : Reader Line
  line_reader = on_line (socket_reader uv enobufs eof is_eof)

  pub line-kept :
      (size : ℕ) (l : Line) (e : Error)
      → (line_reader.read size l).0 ≡ err e
      → line_reader.coming (line_reader.read size l).1 ≡ line_reader.coming l
  unfolding socket_reader
  line-kept size l e h = Kept-coming size l.wire _ e (call-Kept uv enobufs eof is_eof size l.wire) h

  pub line-wire : (bytes : Text) (l : Line) → (call_write uv bytes l).1.wire ≡ l.wire
  line-wire bytes l = Written-wire uv bytes l _ (call_write-Written uv bytes l)

  pub line-refuses :
      (bytes : Text) (l : Line)
      → line_reader.is_open l ≡ false
      → call_write uv bytes l ≡ (err socket_closed_error, l)
  unfolding socket_reader
  line-refuses bytes l h =
      Written-refuses uv bytes l _ (call_write-Written uv bytes l) (ground arith)

  unfoldable pub line : Duplex Line
  line = record {
    reader = line_reader;
    write = call_write uv;
    sent = λ l. l.sent;
    kept = line-kept;
    sent_read = λ size l. refl;
    sends = λ bytes l h. Written-sends uv bytes l _ (call_write-Written uv bytes l) h;
    sends_first = λ bytes l. Written-first uv bytes l _ (call_write-Written uv bytes l);
    coming_write = λ bytes l. ap (socket_reader uv enobufs eof is_eof).coming (line-wire bytes l);
    open_write = λ bytes l. ap (socket_reader uv enobufs eof is_eof).is_open (line-wire bytes l);
    refuses = line-refuses;
  }
