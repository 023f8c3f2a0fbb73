-- ===== src/SocketImpl/Call/Contract.antt =====
-- A whole call of `read` against the contract of Reader.
use Prim.Native.Nat.{min}
use fiberio.Base.{
  ℕ, zero, suc, ◌≤◌, ◌≡◌, ◌≢◌, refl, sym, Bool, true, false, [], ◌∷◌, ◌++◌, Option, none, some,
  if◌then◌else◌, Text, length, take, drop, codes, arith, Bool-cases, inl, inr, ◌⊎◌, length-take, ap,
}
use fiberio.Base.Int.{ℤ, pos, negsuc}
use fiberio.Errors.{
  Result-cases, Error, socket_closed_error, io_error, Uv, Result, ok, err, check_uv_status,
}
use fiberio.SocketImpl.{
  SocketImpl, read_bytes, finished, threw, reader, Pc, idle, read_wait, shutdown_wait, close_wait,
  write_wait, result, to_int64, close, shutdown_done, read_finish, read_loop, read, read_done,
}
use fiberio.SocketImpl.Call.{
  Answer, Wire, first_of_buffer, report, settle, woken, returned, resume, call,
}

-- What was taken, and what is left behind it.
take-append-drop-length : (n : ℕ) (t : Text) → take n t ++ drop (length (take n t)) t ≡ t
take-append-drop-length zero t = refl
take-append-drop-length (suc n) [] = refl
take-append-drop-length (suc n) (c ∷ t) = ap (λ (r : Text). c ∷ r) (take-append-drop-length n t)

-- What a call that returns bytes, or throws, has done.
abbrev pub Kept : ℕ → Wire → Result Text × Wire → Type 0
Kept size w (ok bytes, w') =
    (length bytes ≤ size) × (w.coming ≡ bytes ++ w'.coming) × (bytes ≡ [] → w'.socket.closed ≡ true)
Kept size w (err e, w') = w'.coming ≡ w.coming

Kept-err :
    (size : ℕ) (w : Wire) (r : Result Text × Wire) (e : Error)
    → (r.0 ≡ err e) × (r.1.coming ≡ w.coming)
    → Kept size w r
Kept-err size w (ok bytes, w') e h = absurd (cc (h.0))
Kept-err size w (err e, w') f h = h.1

pub Kept-coming :
    (size : ℕ) (w : Wire) (r : Result Text × Wire) (e : Error)
    → Kept size w r
    → r.0 ≡ err e
    → r.1.coming ≡ w.coming
Kept-coming size w (ok bytes, w') e k h = absurd (cc h)
Kept-coming size w (err f, w') e k h = k

pub take-length : (t : Text) → take (length t) t ≡ t
take-length [] = refl
take-length (c ∷ t) = ap (λ (r : Text). c ∷ r) (take-length t)

first_of_buffer-length : (t : Text) → first_of_buffer (length t) t ≡ t
first_of_buffer-length [] = refl
first_of_buffer-length (c ∷ t) = ap (λ (r : Text). c ∷ r) (first_of_buffer-length t)

pub Kept-ok :
    (size : ℕ) (w : Wire) (r : Result Text × Wire) (bytes : Text)
    → Kept size w r
    → r.0 ≡ ok bytes
    → (length bytes ≤ size)
      × (w.coming ≡ bytes ++ r.1.coming)
      × (bytes ≡ [] → r.1.socket.closed ≡ true)
Kept-ok size w (ok got, w') bytes k h = rw (← (same h)) k
  where
    same : ◌≡◌ {A = Result Text} (ok got) (ok bytes) → got ≡ bytes
    same e = cc e
Kept-ok size w (err e, w') bytes k h = absurd (cc h)

module _ (uv : Uv) (enobufs : ℕ) where
  -- Bytes end the wait with their number, and leave the socket open.
  woken_bytes :
      (a : Answer) (k size : ℕ) (s : SocketImpl)
      → s.closed ≡ false
      → ((woken uv enobufs a (pos k) size s).1 ≡ result (read_bytes k))
        × ((woken uv enobufs a (pos k) size s).0.closed ≡ false)
  unfolding woken read_loop read_finish read_done
  woken_bytes a k size s h = ground arith

  -- Anything else throws, or closes the socket and returns 0.
  abbrev ends : SocketImpl × Pc → Bool
  ends (s, result (threw e)) = true
  ends (s, result (read_bytes zero)) = s.closed
  ends _ = false

  settle-close-ends :
      (a : Answer) (s : SocketImpl)
      → s.closed ≡ false
      → ends (settle uv enobufs a (close uv reader a.shutdown s)) ≡ true
  unfolding close shutdown_done
  settle-close-ends a s h = ground arith

  woken-ends :
      (a : Answer) (c size : ℕ) (s : SocketImpl)
      → s.closed ≡ false
      → ends (woken uv enobufs a (negsuc c) size s) ≡ true
  unfolding woken read_loop read_finish read_done
  woken-ends a c size s h = ground (
    arith,
    settle-close-ends a (record s { reading = false; buf = 0; len = negsuc 0; active = false }),
  )

  began : ℕ → SocketImpl → SocketImpl
  began size s = record s { reading = true; buf = 1; len = to_int64 size; active = true }

  -- A call ends before its wait by an exception, or begins to read on an open socket.
  read-cases :
      (size : ℕ) (start status : ℤ) (s : SocketImpl)
      → ((e : Error) × ((read uv 1 size start status s).1 ≡ result (threw e)))
        ⊎ ((read uv 1 size start status s ≡ (began size s, read_wait true size))
            × (s.closed ≡ false))
  unfolding read read_loop began
  read-cases size start status s = elim (Bool-cases s.closed) [
    | inl c ↦ inl (socket_closed_error, ground arith)
    | inr o ↦ elim (Bool-cases s.reading) [
      | inl b ↦ inl (io_error (codes "concurrent read"), ground arith)
      | inr n ↦ elim (Result-cases (check_uv_status uv start)) [
        | inl (t, k) ↦ inr (ground arith, o)
        | inr (e, k) ↦ inl (e, ground arith)
      ]
    ]
  ]

  -- What is reported: at least a byte of what is to come, in order, or an error.
  module _ (eof : ℕ) (is_eof : uv.uv_eof ≡ negsuc eof) where
    abbrev Bytes : ℕ → Text → ℤ × Text → Type 0
    Bytes size t (nread, got) =
        (nread ≡ pos (length got))
        × (got ≢ [])
        × (length got ≤ size)
        × (t ≡ got ++ drop (length got) t)

    report-cases :
        (a : Answer) (size : ℕ) (t : Text)
        → Bytes size t (report uv enobufs a size t)
          ⊎ ((c : ℕ) × (report uv enobufs a size t ≡ (negsuc c, [])))
    report-cases a zero t = inr (enobufs, refl)
    report-cases a (suc n) t = by_failure a.failure t
      where
        by_failure :
            (f : Option ℕ) (t : Text)
            → Bytes (suc n) t (report uv enobufs (record a { failure = f }) (suc n) t)
              ⊎ ((c : ℕ) × (report uv enobufs (record a { failure = f }) (suc n) t
                    ≡ (negsuc c, [])))
        by_failure (some code) t = inr (code, refl)
        by_failure none [] = inr (eof, rw is_eof refl)
        by_failure none (b ∷ rest) = inl (
          refl,
          (λ h. cc h),
          omega (arith, length-take (min n a.more) rest),
          ap (λ (r : Text). b ∷ r) (sym (take-append-drop-length (min n a.more) rest)),
        )

    -- The call once it waits, and the call that throws before.
    call-waits :
        (size : ℕ) (w : Wire)
        → let a = w.answers w.turn in
          read uv 1 size a.start a.shutdown w.socket ≡ (began size w.socket, read_wait true size)
          → let (nread, got) = report uv enobufs a size w.coming in
            let (s', p') = woken uv enobufs a nread size (began size w.socket) in
            call uv enobufs size w ≡ (
              returned uv enobufs got p',
              record w {
                socket = s';
                coming = drop (length got) w.coming;
                turn = if w.socket.closed then w.turn else suc w.turn;
              },
            )
    unfolding call
    call-waits size w h =
        ap (resume uv enobufs (if w.socket.closed then w.turn else suc w.turn) size w) h

    resume-throws :
        (turn size : ℕ) (w : Wire) (r : SocketImpl × Pc) (e : Error)
        → r.1 ≡ result (threw e)
        → ((resume uv enobufs turn size w r).0 ≡ err e)
          × ((resume uv enobufs turn size w r).1.coming ≡ w.coming)
    resume-throws turn size w (s, result (threw f)) e h = (ground arith, refl)
    resume-throws turn size w (s, result (read_bytes n)) e h = absurd (cc)
    resume-throws turn size w (s, result finished) e h = absurd (cc)
    resume-throws turn size w (s, idle) e h = absurd (cc)
    resume-throws turn size w (s, read_wait b n) e h = absurd (cc)
    resume-throws turn size w (s, shutdown_wait c) e h = absurd (cc)
    resume-throws turn size w (s, close_wait c) e h = absurd (cc)
    resume-throws turn size w (s, write_wait) e h = absurd (cc)

    call-throws :
        (size : ℕ) (w : Wire) (e : Error)
        → let a = w.answers w.turn in
          (read uv 1 size a.start a.shutdown w.socket).1 ≡ result (threw e)
          → ((call uv enobufs size w).0 ≡ err e) × ((call uv enobufs size w).1.coming ≡ w.coming)
    unfolding call
    call-throws size w e h =
        resume-throws (if w.socket.closed then w.turn else suc w.turn) size w
          (read uv 1 size (w.answers w.turn).start (w.answers w.turn).shutdown w.socket) e h

    Kept-ends :
        (size : ℕ) (w : Wire) (turn : ℕ) (r : SocketImpl × Pc)
        → ends r ≡ true
        → Kept size w (
          returned uv enobufs [] r.1,
          record w { socket = r.0; coming = drop 0 w.coming; turn = turn },
        )
    Kept-ends size w turn (s, result (threw e)) h = refl
    Kept-ends size w turn (s, result (read_bytes zero)) h = (omega arith, refl, λ _. h)
    Kept-ends size w turn (s, result (read_bytes (suc n))) h = absurd (cc)
    Kept-ends size w turn (s, result finished) h = absurd (cc)
    Kept-ends size w turn (s, idle) h = absurd (cc)
    Kept-ends size w turn (s, read_wait b n) h = absurd (cc)
    Kept-ends size w turn (s, shutdown_wait c) h = absurd (cc)
    Kept-ends size w turn (s, close_wait c) h = absurd (cc)
    Kept-ends size w turn (s, write_wait) h = absurd (cc)

    -- A whole call of `read` by the only fiber that uses a socket keeps what its users rely on,
    -- whatever libuv answers, where it reports at least a byte, or an error such as the end of the
    -- stream: if the call does not throw, it returns a count of at most what the buffer holds, the
    -- bytes of the buffer up to that count are the next ones of the stream, and no others are gone,
    -- and if there are none the socket is closed by then; if it throws, none of them is gone.
    pub call-Kept : (size : ℕ) (w : Wire) → Kept size w (call uv enobufs size w)
    unfolding began
    call-Kept size w = elim (read-cases size a.start a.shutdown w.socket) [
      | inl (e, h) ↦ Kept-err size w _ e (call-throws size w e h)
      | inr (h, o) ↦ rw (call-waits size w h) (elim (report-cases a size w.coming) [
        | inl (n, some_got, le, order) ↦
            rw
              (
                n,
                (woken_bytes a (length got) size (began size w.socket) o).0,
                first_of_buffer-length got,
              )
              (le, order, λ e. absurd (some_got e))
        | inr (c, k) ↦ rw k (Kept-ends size w _ _ (woken-ends a c size (began size w.socket) o))
      ])
    ]
      where
        a : Answer
        a = w.answers w.turn

        got : Text
        got = (report uv enobufs a size w.coming).1
