-- ===== src/SocketImpl/Session.antt =====
-- What a socket promises its fibers, without buffers, callbacks and waits: it is open until it is
-- closed, and while it is open one fiber at a time holds the right to read.
use fiberio.Base.{ℕ, ◌≡◌, Bool, true, false, Option, none, some}

pub record Session : Type 0 where
  pub open_ : Bool
  pub holder : Option ℕ

-- A closed session is never open again, and only an open one that is free can be taken.
pub data Move (a : Session) : Session → Type 0 where
  stay : Move a a
  take : (i : ℕ) → a.open_ ≡ true → a.holder ≡ none → Move a (record a { holder = some i })
  release : (i : ℕ) → a.holder ≡ some i → Move a (record a { holder = none })
  release_closed : (i : ℕ) → a.holder ≡ some i → Move a (record { open_ = false; holder = none })
  shut : Move a (record a { open_ = false })

pub data Reach : Session → Type 0 where
  start : Reach (record { open_ = true; holder = none })
  later : {a b : Session} → Reach a → Move a b → Reach b
