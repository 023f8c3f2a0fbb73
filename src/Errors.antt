-- ===== src/Errors.antt =====
-- src/utils.cpp, src/utils.hpp and include/fiberio/exceptions.hpp: the exceptions of the library and
-- the status codes of libuv that they come from.
use fiberio.Base.{◌≡◌, ◌⊎◌, inl, inr, refl, Bool, false, ◌||◌, ◌==◌, if◌then◌else◌, Text}
use fiberio.Base.Int.{ℤ, pos, negsuc, ltb_ℤ}

-- What `throw` throws; `uv_error` carries its status.
pub data Error : Type 0 where
  socket_closed_error address_family_not_supported_error : Error
  io_error : Text → Error
  uv_error : ℤ → Error
  runtime_error : Text → Error

-- The constants of libuv that the code names, and its texts for a status.
pub record Uv : Type 0 where
  pub uv_enotconn : ℤ
  pub uv_ebadf : ℤ
  pub uv_eai_addrfamily : ℤ
  pub uv_eof : ℤ
  pub uv_err_name : ℤ → Text
  pub uv_strerror : ℤ → Text

abbrev pub eq_ℤ : ℤ → ℤ → Bool
eq_ℤ (pos a) (pos b) = a == b
eq_ℤ (negsuc a) (negsuc b) = a == b
eq_ℤ _ _ = false

pub data Result {ℓ} (A : Type ℓ) : Type ℓ where
  err : Error → Result A
  ok : A → Result A

-- What follows a call that may throw.
infixl 5 ◌>>=◌ ◌>>◌
abbrev pub ◌>>=◌ {ℓ κ} : {A : Type ℓ} {B : Type κ} → Result A → (A → Result B) → Result B
err thrown >>= next = err thrown
ok value >>= next = next value

abbrev pub ◌>>◌ {ℓ} : {B : Type ℓ} → Result (Unit {0}) → Result B → Result B
m >> k = m >>= λ _. k

-- `check_uv_status(status)`
unfoldable pub check_uv_status : Uv → ℤ → Result (Unit {0})
check_uv_status uv status =
    if ltb_ℤ status (pos 0)
    then if eq_ℤ status uv.uv_enotconn || eq_ℤ status uv.uv_ebadf
      then err socket_closed_error
      else if eq_ℤ status uv.uv_eai_addrfamily
      then err address_family_not_supported_error
      else err (uv_error status)
    else ok tt

-- To split on what a call came to.
pub Result-cases {ℓ} :
    {A : Type ℓ} (r : Result A) → ((a : A) × (r ≡ ok a)) ⊎ ((e : Error) × (r ≡ err e))
Result-cases (ok a) = inl (a, refl)
Result-cases (err e) = inr (e, refl)
