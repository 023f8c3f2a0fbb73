-- ===== src/SocketImpl/System/Refines.antt =====
-- The fibers of a socket against Session.
use fiberio.Base.{
  ℕ, ◌≡◌, refl, true, false, not, Option, none, some, ap, arith, Bool-cases, inl, inr,
}
use fiberio.Base.Int.{ℤ}
use fiberio.Errors.{Uv, Result, check_uv_status}
use fiberio.SocketImpl.{
  SocketImpl, Caller, user, reader, after_shutdown, Pc, idle, read_wait, to_int64, close_returns,
  shutdown_done, read_finish, read, read_done, write, write_done,
}
use fiberio.SocketImpl.System.{
  System, update, wake, put, Step, call_read, resume_read, call_close, end_shutdown, end_close,
  call_write, end_write, return, on_read,
}
use fiberio.SocketImpl.System
use fiberio.SocketImpl.System.Facts.{
  waits, close-waits, Facts, read-Facts, close-Facts, shutdown_done-Facts, close_returns-Facts,
  quiet-Facts, write-quiet, write_done-quiet, read_loop-cases, read_finish-waits,
  read_finish-closed, waits-wake, same_caller,
}
use fiberio.SocketImpl.System.Invariant.{OneReader, Reach-OneReader}
use fiberio.SocketImpl.Session.{
  Session, Move, stay, take, release, release_closed, shut, Reach, start, later,
}

-- The holder of the session is the fiber that waits in `read`.
abbrev pub Holds : Option ℕ → (ℕ → Pc) → Type 0
Holds none pc = (i : ℕ) → waits (pc i) ≡ false
Holds (some i) pc = waits (pc i) ≡ true

pub record Refines (s : System) (a : Session) : Type 0 where
  pub opened : a.open_ ≡ not s.socket.closed
  pub held : Holds a.holder s.pc

abbrev pub Simulated : Session → System → Type 0
Simulated a t = (b : Session) × Move a b × Refines t b

-- A step that changes nobody's right to read, and at most closes the socket.
same_holder :
    (s t : System) (a : Session)
    → Refines s a
    → Holds a.holder t.pc
    → (s.socket.closed ≡ true → t.socket.closed ≡ true)
    → Simulated a t
same_holder s t a r h mono = elim (Bool-cases t.socket.closed) [
  | inl c ↦ (record a { open_ = false }, shut, record { opened = rw c refl; held = h })
  | inr o ↦ (a, stay, record { opened = ground (arith, r.opened); held = h })
]

quiet_Holds :
    (s : System) (i : ℕ) (r : SocketImpl × Pc) (o : Option ℕ)
    → waits (s.pc i) ≡ false
    → waits r.1 ≡ false
    → Holds o s.pc
    → Holds o (put s i r).pc
quiet_Holds s i (socket, p) none w n h = λ j. ground (arith, h j)
quiet_Holds s i (socket, p) (some k) w n h = ground arith

quiet :
    (s : System) (i : ℕ) (r : SocketImpl × Pc) (a : Session)
    → Refines s a
    → waits (s.pc i) ≡ false
    → waits r.1 ≡ false
    → Facts s.socket r
    → Simulated a (put s i r)
quiet s i r a f w n k = same_holder s (put s i r) a f (quiet_Holds s i r a.holder w n f.held) k.mono

-- Nobody holds a session whose socket nobody reads.
free :
    (s : System) (o : Option ℕ) → OneReader s → Holds o s.pc → s.socket.reading ≡ false → o ≡ none
free s none v h e = refl
free s (some k) v h e = absurd (cc (v.busy k h, e))

holder_is :
    (s : System) (o : Option ℕ) (i : ℕ)
    → OneReader s
    → Holds o s.pc
    → waits (s.pc i) ≡ true
    → o ≡ some i
holder_is s none i v h w = absurd (cc (h i, w))
holder_is s (some k) i v h w = rw (v.alone k i h w) refl

close_returns-waits : (c : Caller) (s : SocketImpl) → waits (close_returns c s).1 ≡ false
close_returns-waits user s = refl
close_returns-waits reader s = refl

after_shutdown-waits :
    (c : Caller) (r : Result (Unit {0})) (s : SocketImpl) → waits (after_shutdown c r s).1 ≡ false
after_shutdown-waits user r s = ground arith
after_shutdown-waits reader r s = ground arith

module _ (uv : Uv) where
  shutdown_done-waits :
      (c : Caller) (status : ℤ) (s : SocketImpl) → waits (shutdown_done uv c status s).1 ≡ false
  unfolding shutdown_done
  shutdown_done-waits c status s = after_shutdown-waits c (check_uv_status uv status) s

  read-closed :
      (buf size : ℕ) (begin status : ℤ) (s : SocketImpl)
      → waits (read uv buf size begin status s).1 ≡ true
      → (read uv buf size begin status s).0.closed ≡ s.closed
  unfolding read
  read-closed buf size begin status s w = elim (read_loop-cases uv status size began) [
    | inl (e, _, _) ↦ ground arith
    | inr e ↦ ground (arith, read_finish-waits uv status began)
  ]
    where
      began : SocketImpl
      began = record s { reading = true; buf = buf; len = to_int64 size; active = true }

  read-Simulated :
      (s : System) (i buf size : ℕ) (begin status : ℤ) (a : Session)
      → OneReader s
      → Refines s a
      → waits (s.pc i) ≡ false
      → Simulated a (put s i (read uv buf size begin status s.socket))
  read-Simulated s i buf size begin status a v f w = elim (Bool-cases (waits r.1)) [
    | inr n ↦ quiet s i r a f w n k
    | inl y ↦ (
      record a { holder = some i },
      take i (rw f.opened (rw (k.enters y).1 refl)) (free s a.holder v f.held (k.enters y).0),
      record {
        opened = rw (read-closed buf size begin status s.socket y) f.opened;
        held = ground arith;
      },
    )
  ]
    where
      r : SocketImpl × Pc
      r = read uv buf size begin status s.socket

      k : Facts s.socket r
      k = read-Facts uv buf size begin status s.socket

  finish-Simulated :
      (s : System) (i : ℕ) (status : ℤ) (a : Session)
      → OneReader s
      → Refines s a
      → waits (s.pc i) ≡ true
      → Simulated a (put s i (read_finish uv status s.socket))
  finish-Simulated s i status a v f w = elim (Bool-cases r.0.closed) [
    | inl c ↦ (
      record { open_ = false; holder = none },
      release_closed i (holder_is s a.holder i v f.held w),
      record { opened = rw c refl; held = gone },
    )
    | inr o ↦ (
      record a { holder = none },
      release i (holder_is s a.holder i v f.held w),
      record {
        opened = ground (arith, f.opened, (read_finish-closed uv status s.socket).0);
        held = gone;
      },
    )
  ]
    where
      r : SocketImpl × Pc
      r = read_finish uv status s.socket

      gone : (j : ℕ) → waits (update s.pc i r.1 j) ≡ false
      gone j = ground (arith, v.alone i j w, read_finish-waits uv status s.socket)

woken_Holds : (s : System) (o : Option ℕ) → Holds o s.pc → Holds o (λ j. wake (s.pc j))
woken_Holds s none h = λ j. rw (waits-wake, h j) refl
woken_Holds s (some k) h = rw waits-wake h

Step-Simulated :
    {uv : Uv} {s t : System} (a : Session) → Step uv s t → OneReader s → Refines s a → Simulated a t
unfolding read_done
Step-Simulated {uv} {s} a (call_read i buf size begin status e) v f =
    read-Simulated uv s i buf size begin status a v f (rw e)
Step-Simulated {uv} {s} a (resume_read i size status e) v f =
    elim (read_loop-cases uv status size s.socket) [
      | inl (k, _, _) ↦ rw k (same_holder s _ a f (stays a.holder f.held) (λ h. h))
      | inr k ↦ rw k (finish-Simulated uv s i status a v f (rw e))
    ]
  where
    stays : (o : Option ℕ) → Holds o s.pc → Holds o (put s i (s.socket, read_wait true size)).pc
    stays none h = λ j. absurd (cc (h i, ap waits e))
    stays (some k) h = ground arith
Step-Simulated {uv} {s} a (call_close i status e) v f =
    quiet s i _ a f (rw e) (close-waits uv user status s.socket)
      (close-Facts uv user status s.socket (λ h. absurd (cc)))
Step-Simulated {uv} {s} a (end_shutdown i c status e) v f =
    quiet s i _ a f (rw e) (shutdown_done-waits uv c status s.socket) (
      shutdown_done-Facts uv c status s.socket (v.closing i (rw e))
        (λ h. v.ended i (rw e (same_caller c h))))
Step-Simulated {uv} {s} a (end_close i c e) v f =
    quiet (record s { pc = λ j. wake (s.pc j) }) i _ a
      (record { opened = f.opened; held = woken_Holds s a.holder f.held }) (rw (waits-wake, e) refl)
      (close_returns-waits c s.socket) (close_returns-Facts c s.socket)
Step-Simulated {uv} {s} a (call_write i status e) v f =
    quiet s i _ a f (rw e) (write-quiet uv status s.socket).0
      (quiet-Facts s.socket (write uv status s.socket) (write-quiet uv status s.socket))
Step-Simulated {uv} {s} a (end_write i status e) v f =
    quiet s i _ a f (rw e) (write_done-quiet uv status).0
      (quiet-Facts s.socket (write_done uv status) (write_done-quiet uv status))
Step-Simulated {uv} {s} a (return i o e) v f =
    quiet s i _ a f (rw e) refl (quiet-Facts s.socket idle (refl, refl))
Step-Simulated {uv} {s} a (on_read nread e h) v f =
    same_holder s (record { socket = read_done uv nread s.socket; pc = λ j. wake (s.pc j) }) a f
      (woken_Holds s a.holder f.held) (λ k. k)

-- Each step of the fibers of a socket, from a reachable state that stands for a session, is a move
-- of that session or leaves it alone: the socket is open until it is closed for good, a fiber takes
-- the right to read only while it is open and nobody holds it, and gives back only its own.
pub Step-Refines :
    {uv : Uv} {s t : System} {a : Session}
    → System.Reach uv s
    → Refines s a
    → Step uv s t
    → (b : Session) × Move a b × Refines t b
Step-Refines {a = a} r f st = Step-Simulated a st (Reach-OneReader r) f

-- So each reachable state stands for a reachable one of Session.
pub Reach-Refines :
    {uv : Uv} {s : System} → System.Reach uv s → (a : Session) × Reach a × Refines s a
Reach-Refines System.start =
    (record { open_ = true; holder = none }, start, record { opened = refl; held = λ i. refl })
Reach-Refines (System.later r st) =
    let (a, ra, f) = Reach-Refines r in let (b, m, g) = Step-Refines r f st in (b, later ra m, g)
