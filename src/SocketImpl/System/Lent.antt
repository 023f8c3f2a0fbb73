-- ===== src/SocketImpl/System/Lent.antt =====
-- The length of the buffer that src/socket_impl.cpp lends to libuv, and what its functions leave of it.
use fiberio.Base.{ℕ, ◌^◌, ◌≡◌, ◌≤◌, ◌<◌, Bool, true, false, arith, ap, inl, inr, ◌⊎◌}
use fiberio.Base.Int.{ℤ, pos, negsuc, pos_part}
use fiberio.Errors.{Uv, Result, check_uv_status}
use fiberio.SocketImpl.{
  SocketImpl, Caller, user, reader, Pc, read_wait, to_int64, to_size, close_returns, after_shutdown,
  close, shutdown_done, read_finish, read, read_length, write, write_done,
}
use fiberio.SocketImpl.System.Facts.{waits, read_loop-cases}

-- `len_` while a buffer of `n` bytes is lent: a number of bytes that fits, or, once libuv has called
-- back, one of the two error codes.
abbrev pub Fits : Bool → ℕ → ℤ → Type 0
Fits active n (pos k) = k ≤ n
Fits active n (negsuc k) = (k ≤ 1) × (active ≡ false)

pub record Lent (s : SocketImpl) (r : SocketImpl × Pc) : Type 0 where
  pub other :
      s.reading ≡ true
      → ((r.0.len ≡ s.len) ⊎ (r.0.len ≡ pos 0)) × (r.0.active ≡ true → s.active ≡ true)
  pub own : (n : ℕ) (a : Bool) → r.1 ≡ read_wait a n → n < 2 ^ 63 → Fits r.0.active n r.0.len

pub Fits-other :
    (a b : Bool) (n : ℕ) (x y : ℤ)
    → Fits a n x
    → (y ≡ x) ⊎ (y ≡ pos 0)
    → (b ≡ true → a ≡ true)
    → Fits b n y
Fits-other a b n (pos k) (pos m) f e h = ground arith
Fits-other a b n (pos k) (negsuc m) f e h = ground arith
Fits-other a b n (negsuc k) (pos m) f e h = ground arith
Fits-other a b n (negsuc k) (negsuc m) f e h = ground arith

-- No step but the start of a read lends a buffer, and each leaves the length or sets it to 0.
abbrev pub Keeps : SocketImpl → SocketImpl × Pc → Type 0
Keeps s r =
    (waits r.1 ≡ false)
    × ((r.0.len ≡ s.len) ⊎ (r.0.len ≡ pos 0))
    × (r.0.active ≡ true → s.active ≡ true)

pub Keeps-Lent : (s : SocketImpl) (r : SocketImpl × Pc) → Keeps s r → Lent s r
Keeps-Lent s r k = record {
  other = λ _. (k.1, k.2);
  own = λ n a e lt. absurd (cc (k.0, ap waits e));
}

module _ (uv : Uv) where
  after_shutdown-Keeps :
      (c : Caller) (r : Result (Unit {0})) (s : SocketImpl) → Keeps s (after_shutdown c r s)
  after_shutdown-Keeps user r s = ground arith
  after_shutdown-Keeps reader r s = ground arith

  pub shutdown_done-Keeps :
      (c : Caller) (status : ℤ) (s : SocketImpl) → Keeps s (shutdown_done uv c status s)
  unfolding shutdown_done
  shutdown_done-Keeps c status s = after_shutdown-Keeps c (check_uv_status uv status) s

  pub close-Keeps : (c : Caller) (status : ℤ) (s : SocketImpl) → Keeps s (close uv c status s)
  unfolding close
  close-Keeps user status s = ground arith
  close-Keeps reader status s = ground arith

  pub read_finish-Keeps : (status : ℤ) (s : SocketImpl) → Keeps s (read_finish uv status s)
  unfolding read_finish
  read_finish-Keeps status s =
      ground (arith, close-Keeps reader status (record s { reading = false }))

  began : ℕ → ℕ → SocketImpl → SocketImpl
  began buf size s = record s { reading = true; buf = buf; len = to_int64 size; active = true }

  read-waits :
      (buf size : ℕ) (begin status : ℤ) (s : SocketImpl) (n : ℕ) (a : Bool)
      → (read uv buf size begin status s).1 ≡ read_wait a n
      → (n ≡ size) × ((read uv buf size begin status s).0 ≡ began buf size s)
  unfolding read began
  read-waits buf size begin status s n a e =
      elim (read_loop-cases uv status size (began buf size s)) [
        | inl (k, _, _) ↦ ground arith
        | inr k ↦ ground (arith, read_finish-Keeps status (began buf size s))
      ]

  Fits-began : (size : ℕ) → size < 2 ^ 63 → Fits true size (to_int64 size)
  Fits-began size h = ground arith

  read-own :
      (buf size : ℕ) (begin status : ℤ) (s : SocketImpl) (n : ℕ) (a : Bool)
      → (read uv buf size begin status s).1 ≡ read_wait a n
      → n < 2 ^ 63
      → Fits (read uv buf size begin status s).0.active n (read uv buf size begin status s).0.len
  unfolding began
  read-own buf size begin status s n a e lt =
      let (m, k) = read-waits buf size begin status s n a e in
      rw (k, m) (Fits-began size (rw m at lt))

  pub read-Lent :
      (buf size : ℕ) (begin status : ℤ) (s : SocketImpl) → Lent s (read uv buf size begin status s)
  unfolding read
  read-Lent buf size begin status s = record {
    other = λ h. ground arith;
    own = λ n a e lt. read-own buf size begin status s n a e lt;
  }

  pub write-Keeps : (status : ℤ) (s : SocketImpl) → Keeps s (s, write uv status s)
  unfolding write
  write-Keeps status s = ground arith

  pub write_done-Keeps : (status : ℤ) (s : SocketImpl) → Keeps s (s, write_done uv status)
  unfolding write_done
  write_done-Keeps status s = ground arith

  pub close_returns-Keeps : (c : Caller) (s : SocketImpl) → Keeps s (close_returns c s)
  close_returns-Keeps user s = ground arith
  close_returns-Keeps reader s = ground arith

pub read_done-Fits :
    (uv : Uv) (active : Bool) (x nread : ℤ) (n : ℕ)
    → active ≡ true
    → pos_part nread ≤ to_size x
    → Fits active n x
    → Fits false n (read_length uv nread)
read_done-Fits uv active (pos k) (pos m) n a h f = omega arith
read_done-Fits uv active (negsuc k) (pos m) n a h f = absurd (cc (a, f.1))
read_done-Fits uv active x (negsuc m) n a h f = ground arith
