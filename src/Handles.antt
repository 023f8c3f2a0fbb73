-- ===== src/Handles.antt =====
-- The objects of src/socket.cpp and src/server_socket.cpp as owners of their implementations, which
-- they share by `std::shared_ptr`, and the calls that they pass on.
pub mod Lists
pub mod Written
pub mod Owned
pub mod Shared
pub mod Device
pub mod Unique
pub mod Sockets
pub mod Copies
pub mod Servers
use fiberio.Base.{
  ℕ, zero, suc, ◌+◌, Bool, true, false, List, [], ◌∷◌, ◌++◌, Option, none, some, ◌==◌,
  if◌then◌else◌, length, get_elem?, count_if,
}
use fiberio.Handles.Lists.{set}

-- What the objects need of an implementation; `S` is its state. `close` is what its destructor calls
-- on an open one.
pub record Impl {ℓ} (S : Type ℓ) : Type ℓ where
  pub new : S
  pub is_open : S → Bool
  pub close : S → S

-- An object: destroyed, without an implementation after a move, or one of its owners.
pub data Handle : Type 0 where
  absent : Handle
  empty : Handle
  owns : ℕ → Handle

-- An implementation, or what its destructor left.
pub data Cell {ℓ} (S : Type ℓ) : Type ℓ where
  live : S → Cell S
  dead : S → Cell S

pub record Store {ℓ} (S : Type ℓ) : Type ℓ where
  pub handles : List Handle
  pub cells : List (Cell S)

abbrev pub owner_of : ℕ → Handle → Bool
owner_of k (owns i) = i == k
owner_of k _ = false

abbrev pub owners : ℕ → List Handle → ℕ
owners k hs = count_if (owner_of k) hs

-- The operations on objects, by their numbers. `call` is a function of the class that works on the
-- implementation.
pub data Op {ℓ} (S : Type ℓ) : Type ℓ where
  construct : Op S
  adopt : S → Op S
  copy : ℕ → Op S
  move : ℕ → Op S
  copy_assign : ℕ → ℕ → Op S
  move_assign : ℕ → ℕ → Op S
  destroy : ℕ → Op S
  call : ℕ → (S → S) → Op S

infixl 5 ◌>>=◌
abbrev ◌>>=◌ {ℓ κ} : {A : Type ℓ} {B : Type κ} → Option A → (A → Option B) → Option B
none >>= f = none
some a >>= f = f a

module _ {ℓ} {S : Type ℓ} (impl : Impl S) where
  open impl use {new, is_open, close}

  -- `~socket_impl`
  abbrev pub finish : Cell S → Cell S
  finish (live s) = dead (if is_open s then close s else s)
  finish (dead s) = dead s

  abbrev pub update_cell : (Cell S → Cell S) → ℕ → List (Cell S) → List (Cell S)
  update_cell f k [] = []
  update_cell f zero (c ∷ cs) = f c ∷ cs
  update_cell f (suc k) (c ∷ cs) = c ∷ update_cell f k cs

  -- One owner less: `std::shared_ptr` destroys what has no owner left.
  unfoldable pub release : Handle → Store S → Store S
  release absent s = s
  release empty s = s
  release (owns k) s =
      if owners k s.handles == 0 then record s { cells = update_cell finish k s.cells } else s

  -- An object, which must not be destroyed: what is done with one that is has no meaning.
  abbrev pub present : ℕ → Store S → Option Handle
  present i s = elim (get_elem? s.handles i) [
    | none ↦ none
    | some h ↦ elim h [ absent ↦ none | empty ↦ some empty | owns k ↦ some (owns k) ]
  ]

  abbrev pub with_handles : List Handle → Store S → Store S
  with_handles hs s = record s { handles = hs }

  -- `impl_->`: it has no meaning on an object without an implementation.
  abbrev pub target : ℕ → Store S → Option (ℕ × S)
  target i s = elim (present i s) [
    | none ↦ none
    | some h ↦ elim h [
      | absent ↦ none
      | empty ↦ none
      | owns k ↦ elim (get_elem? s.cells k) [
        | none ↦ none
        | some c ↦ elim c [ live x ↦ some (k, x) | dead x ↦ none ]
      ]
    ]
  ]

  -- `none` is a call without a meaning.
  unfoldable pub step : Op S → Store S → Option (Store S)
  step construct s = some (record {
    handles = s.handles ++ owns (length s.cells) ∷ [];
    cells = s.cells ++ live new ∷ [];
  })
  step (adopt x) s =
      some (record {
        handles = s.handles ++ owns (length s.cells) ∷ [];
        cells = s.cells ++ live x ∷ [];
      })
  step (copy i) s = do h ← present i s; some (with_handles (s.handles ++ h ∷ []) s)
  step (move i) s = do h ← present i s; some (with_handles (set s.handles i empty ++ h ∷ []) s)
  step (copy_assign i j) s = do
    old ← present i s
    h ← present j s
    some (release old (with_handles (set s.handles i h) s))
  step (move_assign i j) s = do
    old ← present i s
    h ← present j s
    some (if i == j then s else release old (with_handles (set (set s.handles j empty) i h) s))
  step (destroy i) s = do
    old ← present i s
    some (release old (with_handles (set s.handles i absent) s))
  step (call i f) s = do
    (k, x) ← target i s
    some (record s { cells = update_cell (λ c. live (f x)) k s.cells })

  unfoldable pub run : List (Op S) → Store S → Option (Store S)
  run [] s = some s
  run (o ∷ os) s = do t ← step o s; run os t

  -- `close()` of an object.
  unfoldable pub socket_close : ℕ → Store S → Option (Store S)
  socket_close i s = do
    (k, x) ← target i s
    some (record s { cells = update_cell (λ c. live (close x)) k s.cells })

  -- `is_open()` of an object.
  unfoldable pub handle_is_open : ℕ → Store S → Option Bool
  handle_is_open i s = do (k, x) ← target i s; some (is_open x)

abbrev pub no_objects {ℓ} : {S : Type ℓ} → Store S
no_objects = record { handles = []; cells = [] }
