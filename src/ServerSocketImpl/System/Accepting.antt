-- ===== src/ServerSocketImpl/System/Accepting.antt =====
-- The connections that have come, and the fibers that accept them.
use fiberio.Base.{
  ℕ, ◌+◌, ◌≡◌, ◌≢◌, ◌≤◌, refl, Bool, true, false, ◌==◌, arith, inl, inr, ◌⊎◌, Bool-cases, if_false,
  if_true, ◌∙◌,
}
use fiberio.Base.Int.{ℤ}
use fiberio.Errors.{Uv, ok, err, check_uv_status}
use fiberio.ServerSocketImpl.{
  ServerSocketImpl, Pc, idle, accept_wait, close_wait, Outcome, accepted, threw, closed_down,
  result, on_connection, close, do_accept, accept,
}
use fiberio.ServerSocketImpl.System.{
  System, update, wake, takes, put_accept, put, Step, call_accept, resume_accept, call_close,
  end_close, return, arrives, Reach, start, later,
}

-- Some fiber is in `close` and will notify.
abbrev pub Closing : System → Type 0
Closing s = (j : ℕ) × (s.pc j ≡ close_wait)

pub record Accounted (s : System) : Type 0 where
  -- Each connection callback was answered by one `accept` or is still pending.
  pub counted : s.socket.pending_connections + s.taken ≡ s.arrived
  -- A fiber that sleeps in `accept` has nothing to wake for, or is about to be notified.
  pub asleep :
      (i : ℕ)
      → s.pc i ≡ accept_wait true
      → (s.socket.pending_connections ≡ 0) × ((s.socket.closed ≡ false) ⊎ Closing s)

module _ (uv : Uv) where
  pub do_accept-result : (status : ℤ) → (o : Outcome) × (do_accept uv status ≡ result o)
  unfolding do_accept
  do_accept-result status =
      elim (check_uv_status uv status)
        as (λ r.
          (o : Outcome) × (elim r [ ok _ ↦ result accepted | err e ↦ result (threw e) ]
            ≡ result o)) [ ok _ ↦ (accepted, refl) | err e ↦ (threw e, refl) ]

  accept-counted :
      (status : ℤ) (s : ServerSocketImpl)
      → let (s', p) = accept uv status s in
        s'.pending_connections + takes s' p ≡ s.pending_connections
  unfolding accept
  accept-counted status s = ground (arith, (do_accept-result status).1)

  accept-asleep :
      (status : ℤ) (s : ServerSocketImpl)
      → (accept uv status s).1 ≡ accept_wait true
      → ((accept uv status s).0.pending_connections ≡ 0) × ((accept uv status s).0.closed ≡ false)
  unfolding accept
  accept-asleep status s h = ground (arith, (do_accept-result status).1)

  accept-keeps :
      (status : ℤ) (s : ServerSocketImpl)
      → ((accept uv status s).0.closed ≡ s.closed)
        × ((accept uv status s).0.pending_connections ≤ s.pending_connections)
  unfolding accept
  accept-keeps status s = ground arith

closing-update :
    (pc : ℕ → Pc) (i : ℕ) (p : Pc)
    → (j : ℕ) × (pc j ≡ close_wait)
    → pc i ≢ close_wait
    → (j : ℕ) × (update pc i p j ≡ close_wait)
closing-update pc i p (j, e) n = (j, if_false p (pc j) other ∙ e)
  where
    other : (i == j) ≡ false
    other = ground arith

later_closing :
    (b : Bool) (pc : ℕ → Pc) (i : ℕ) (p : Pc)
    → pc i ≢ close_wait
    → (b ≡ false) ⊎ ((j : ℕ) × (pc j ≡ close_wait))
    → (b ≡ false) ⊎ ((j : ℕ) × (update pc i p j ≡ close_wait))
later_closing b pc i p n (inl e) = inl e
later_closing b pc i p n (inr c) = inr (closing-update pc i p c n)

-- `accept` by a fiber that does not close.
put_accept-Accounted :
    (uv : Uv) (s : System) (i : ℕ) (status : ℤ)
    → Accounted s
    → s.pc i ≢ close_wait
    → Accounted (put_accept s i (accept uv status s.socket))
put_accept-Accounted uv s i status v n = record {
  counted = omega (arith, accept-counted uv status s.socket, v.counted);
  asleep = asleep;
}
  where
    r : ServerSocketImpl × Pc
    r = accept uv status s.socket

    asleep :
        (j : ℕ)
        → update s.pc i r.1 j ≡ accept_wait true
        → (r.0.pending_connections ≡ 0)
          × ((r.0.closed ≡ false) ⊎ ((k : ℕ) × (update s.pc i r.1 k ≡ close_wait)))
    asleep j e = elim (Bool-cases (i == j)) [
      | inl y ↦ let (a, b) = accept-asleep uv status s.socket (ground arith) in (a, inl b)
      | inr y ↦
          let (a, b) = v.asleep j (ground arith) in
          (
            omega (arith, (accept-keeps uv status s.socket).1),
            rw (accept-keeps uv status s.socket).0 (later_closing s.socket.closed s.pc i r.1 n b),
          )
    ]

wake-awake : (p : Pc) → wake p ≢ accept_wait true
wake-awake (accept_wait b) = λ e. cc
wake-awake idle = λ e. cc
wake-awake close_wait = λ e. cc
wake-awake (result o) = λ e. cc

-- A step that leaves the socket as it is, of a fiber that neither closes nor goes to sleep.
quiet-Accounted :
    (s : System) (i : ℕ) (p : Pc)
    → Accounted s
    → s.pc i ≢ close_wait
    → p ≢ accept_wait true
    → Accounted (put s i (s.socket, p))
quiet-Accounted s i p v n q = record { counted = v.counted; asleep = asleep }
  where
    asleep :
        (j : ℕ)
        → update s.pc i p j ≡ accept_wait true
        → (s.socket.pending_connections ≡ 0)
          × ((s.socket.closed ≡ false) ⊎ ((k : ℕ) × (update s.pc i p k ≡ close_wait)))
    asleep j e = elim (Bool-cases (i == j)) [
      | inl y ↦ absurd (q (ground arith))
      | inr y ↦
          let (a, b) = v.asleep j (ground arith) in (a, later_closing s.socket.closed s.pc i p n b)
    ]

shut-Accounted :
    (s : System) (i : ℕ)
    → Accounted s
    → Accounted (put s i (record (s.socket) { closed = true }, close_wait))
shut-Accounted s i v = record { counted = v.counted; asleep = asleep }
  where
    here : (update s.pc i close_wait i) ≡ close_wait
    here = ground arith

    asleep :
        (j : ℕ)
        → update s.pc i close_wait j ≡ accept_wait true
        → (s.socket.pending_connections ≡ 0)
          × ((true ≡ false) ⊎ ((k : ℕ) × (update s.pc i close_wait k ≡ close_wait)))
    asleep j e = ((v.asleep j (ground arith)).0, inr (i, here))

close-Accounted :
    (s : System) (i : ℕ) → Accounted s → s.pc i ≡ idle → Accounted (put s i (close s.socket))
unfolding close
close-Accounted s i v e = elim (Bool-cases s.socket.closed) [
  | inl c ↦
      rw (if_true _ _ c) (quiet-Accounted s i (result closed_down) v (λ h. cc (e, h)) (λ h. cc))
  | inr c ↦ rw (if_false _ _ c) (shut-Accounted s i v)
]

end_close-Accounted :
    (s : System) (i : ℕ)
    → Accounted s
    → Accounted (put (record s { pc = λ j. wake (s.pc j) }) i (s.socket, result closed_down))
end_close-Accounted s i v = record {
  counted = v.counted;
  asleep = λ j e. absurd (wake-awake (s.pc j) (ground arith));
}

Step-Accounted : {uv : Uv} {s t : System} → Step uv s t → Accounted s → Accounted t
unfolding on_connection
Step-Accounted {uv} {s} (call_accept i status e) v =
    put_accept-Accounted uv s i status v (λ h. cc (e, h))
Step-Accounted {uv} {s} (resume_accept i status e) v =
    put_accept-Accounted uv s i status v (λ h. cc (e, h))
Step-Accounted {uv} {s} (call_close i e) v = close-Accounted s i v e
Step-Accounted {uv} {s} (end_close i e) v = end_close-Accounted s i v
Step-Accounted {uv} {s} (return i o e) v = quiet-Accounted s i idle v (λ h. cc (e, h)) (λ h. cc)
Step-Accounted {uv} {s} (arrives status) v = record {
  counted = omega (arith, v.counted);
  asleep = λ i e. absurd (wake-awake (s.pc i) e);
}

-- In every reachable state each connection callback has been answered by one `accept` or is
-- pending, and a fiber that sleeps in `accept` has no connection to take, nor is the socket closed,
-- unless a fiber in `close` is about to notify it.
pub Reach-Accounted : {uv : Uv} {s : System} → Reach uv s → Accounted s
Reach-Accounted start = record { counted = refl; asleep = λ i e. absurd (cc) }
Reach-Accounted (later r st) = Step-Accounted st (Reach-Accounted r)
