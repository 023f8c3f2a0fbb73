-- ===== src/SocketImpl/Call/Writing.antt =====
-- One whole call of `write` or `close` of src/socket_impl.cpp by the only fiber that uses a socket, against the
-- answers of libuv.
use fiberio.Base.{
  ℕ, suc, ap, length, ◌≡◌, ◌⊎◌, inl, inr, sym, Bool-cases, refl, false, true, [], ◌++◌, Text, take,
  arith, if◌then◌else◌,
}
use mathlib.Core.List.{append-nil}
use fiberio.Base.Int.{ℤ, pos, ltb_ℤ}
use fiberio.Errors.{
  Error, socket_closed_error, runtime_error, Uv, Result, ok, err, check_uv_status, Result-cases,
}
use fiberio.SocketImpl.{
  SocketImpl, finished, threw, Pc, write_wait, result, write, write_done, close, user,
}
use fiberio.SocketImpl.Call.{Wire, settle}
use fiberio.SocketImpl.Call.Contract.{take-length}

-- What libuv does in one call: the statuses of `uv_write` and of its callback, and how many bytes have
-- gone if that reports an error.
pub record WriteAnswer : Type 0 where
  pub start : ℤ
  pub written : ℤ
  pub gone : ℕ

-- A connection in both directions; of the answers to `write`, `writes` are used up.
pub record Line : Type 0 where
  pub wire : Wire
  pub sent : Text
  pub write_answers : ℕ → WriteAnswer
  pub writes : ℕ

module _ (uv : Uv) where
  -- What has gone when the callback has come: all of it, unless its status is an error.
  abbrev pub gone : WriteAnswer → Text → Text
  gone a bytes = if ltb_ℤ a.written (pos 0) then take a.gone bytes else bytes

  abbrev pub outcome : Pc → Result (Unit {0})
  outcome (result finished) = ok tt
  outcome (result (threw e)) = err e
  outcome _ = err (runtime_error [])

  -- From the wait on, if the call has come to it.
  abbrev pub finish_write : WriteAnswer → Text → Line → Pc → Result (Unit {0}) × Line
  finish_write a bytes l write_wait = (
    outcome (write_done uv a.written),
    record l { sent = l.sent ++ gone a bytes; writes = suc l.writes },
  )
  finish_write a bytes l p = (outcome p, l)

  unfoldable pub call_write : Text → Line → Result (Unit {0}) × Line
  call_write bytes l =
      let a = l.write_answers l.writes in finish_write a bytes l (write uv a.start l.wire.socket)

  -- A whole call of `close`; what `uv_shutdown` answers is the next answer of the wire.
  unfoldable pub call_close : ℕ → Line → Result (Unit {0}) × Line
  call_close enobufs l =
      let a = l.wire.answers l.wire.turn in
      let (s, p) = settle uv enobufs a (close uv user a.shutdown l.wire.socket) in
      let turn = if l.wire.socket.closed then l.wire.turn else suc l.wire.turn in
      (outcome p, record l { wire = record (l.wire) { socket = s; turn = turn } })

  write-cases :
      (status : ℤ) (s : SocketImpl)
      → ((s.closed ≡ true) × (write uv status s ≡ result (threw socket_closed_error)))
        ⊎ ((s.closed ≡ false)
            × ((write uv status s ≡ write_wait)
                ⊎ ((e : Error) × (write uv status s ≡ result (threw e)))))
  unfolding write
  write-cases status s = elim (Bool-cases s.closed) [
    | inl c ↦ inl (c, ground arith)
    | inr o ↦ elim (Result-cases (check_uv_status uv status)) [
      | inl (_, k) ↦ inr (o, inl (ground arith))
      | inr (e, k) ↦ inr (o, inr (e, ground arith))
    ]
  ]

  -- The check passes no error.
  good : (status : ℤ) → check_uv_status uv status ≡ ok tt → ltb_ℤ status (pos 0) ≡ false
  unfolding check_uv_status
  good status k = ground arith

  write_done-cases :
      (status : ℤ)
      → ((write_done uv status ≡ result finished) × (ltb_ℤ status (pos 0) ≡ false))
        ⊎ ((e : Error) × (write_done uv status ≡ result (threw e)))
  unfolding write_done
  write_done-cases status = elim (Result-cases (check_uv_status uv status)) [
    | inl (_, k) ↦ inl (ground arith, good status k)
    | inr (e, k) ↦ inr (e, ground arith)
  ]

  gone-take : (a : WriteAnswer) (bytes : Text) → (k : ℕ) × (gone a bytes ≡ take k bytes)
  gone-take a bytes = elim (Bool-cases (ltb_ℤ a.written (pos 0))) [
    | inl n ↦ rw n (a.gone, refl)
    | inr n ↦ rw n (length bytes, sym (take-length bytes))
  ]

  -- The call ends as one of these.
  abbrev pub Written : Text → Line → Result (Unit {0}) × Line → Type 0
  Written bytes l (ok _, l') =
      (l.wire.socket.closed ≡ false) × (l'.wire ≡ l.wire) × (l'.sent ≡ l.sent ++ bytes)
  Written bytes l (err e, l') =
      (l'.wire ≡ l.wire)
      × ((k : ℕ) × (l'.sent ≡ l.sent ++ take k bytes))
      × (l.wire.socket.closed ≡ true → (e ≡ socket_closed_error) × (l' ≡ l))

  finish_write-Written :
      (a : WriteAnswer) (bytes : Text) (l : Line)
      → l.wire.socket.closed ≡ false
      → Written bytes l (finish_write a bytes l write_wait)
  finish_write-Written a bytes l o = elim (write_done-cases a.written) [
    | inl (k, n) ↦ rw (k, n) (o, refl, refl)
    | inr (e, k) ↦
        let (first, cut) = gone-take a bytes in
        rw k (refl, (first, ap (λ (t : Text). l.sent ++ t) cut), λ c. absurd (cc (o, c)))
  ]

  pub call_write-Written : (bytes : Text) (l : Line) → Written bytes l (call_write bytes l)
  unfolding call_write
  call_write-Written bytes l = elim (write-cases (l.write_answers l.writes).start l.wire.socket) [
    | inl (c, k) ↦ rw k (refl, (0, sym (append-nil l.sent)), λ _. (refl, refl))
    | inr (o, inl k) ↦ rw k (finish_write-Written (l.write_answers l.writes) bytes l o)
    | inr (o, inr (e, k)) ↦ rw k (refl, (0, sym (append-nil l.sent)), λ c. absurd (cc (o, c)))
  ]
