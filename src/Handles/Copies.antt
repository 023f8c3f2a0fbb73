-- ===== src/Handles/Copies.antt =====
-- Copies of a `socket`, and the close of one of them: the copy constructor and `socket::close` of
-- src/socket.cpp over `socket_impl::close` of src/socket_impl.cpp.
use fiberio.Base.{
  ℕ, ◌≡◌, inl, inr, refl, sym, true, false, List, [], ◌∷◌, ◌++◌, some, ◌==◌, if◌then◌else◌, length,
  get_elem?, arith, Bool-cases, ap, ◌∙◌,
}
use fiberio.Base.Int.{ℤ}
use fiberio.Errors.{Uv}
use fiberio.SocketImpl.{SocketImpl}
use fiberio.Handles.{
  Handle, owns, Store, Op, copy, step, run, no_objects, socket_close, handle_is_open, with_handles,
  present,
}
use fiberio.Handles.Lists.{get_elem?-append_one, get_elem?-length}
use fiberio.Handles.Written.{Owned}
use fiberio.Handles.Owned.{step-Owned, run-no_objects-Owned}
use fiberio.Handles.Shared.{socket_close-shared, Owned-live, is_open-owns}
use fiberio.Handles.Sockets.{sockets, close-closes}

module _ (uv : Uv) (status : ℤ) where
  -- The objects and a copy of one of them.
  abbrev with_copy : ℕ → Store SocketImpl → Store SocketImpl
  with_copy k s = with_handles (sockets uv status) (s.handles ++ owns k ∷ []) s

  copy-owns :
      (s : Store SocketImpl) (i k : ℕ)
      → get_elem? s.handles i ≡ some (owns k)
      → step (sockets uv status) (copy i) s ≡ some (with_copy k s)
  unfolding step
  copy-owns s i k e =
      let there : present (sockets uv status) i s ≡ some (owns k) = ground arith in rw there refl

  -- The objects from before are where they were.
  with_copy-old :
      (s : Store SocketImpl) (j k : ℕ) (h : Handle)
      → get_elem? s.handles j ≡ some h
      → get_elem? (with_copy k s).handles j ≡ some h
  with_copy-old s j k h e = elim (Bool-cases (length s.handles == j)) [
    | inl q ↦
        let same : length s.handles ≡ j = ground arith in
        absurd (cc (e, ap (get_elem? s.handles) same, get_elem?-length s.handles))
    | inr q ↦ rw (get_elem?-append_one s.handles (owns k) j, q) e
  ]

  with_copy-new :
      (s : Store SocketImpl) (k : ℕ)
      → get_elem? (with_copy k s).handles (length s.handles) ≡ some (owns k)
  with_copy-new s k =
      let same : (length s.handles == length s.handles) ≡ true = ground arith in
      rw (get_elem?-append_one s.handles (owns k) (length s.handles), same) refl

  -- A copy changes nothing for the others.
  with_copy-is_open :
      (s : Store SocketImpl) (j k m : ℕ)
      → Owned (sockets uv status) s
      → get_elem? s.handles j ≡ some (owns m)
      → handle_is_open (sockets uv status) j (with_copy k s)
        ≡ handle_is_open (sockets uv status) j s
  with_copy-is_open s j k m v e =
      let (x, at_m) = Owned-live (sockets uv status) s j m v e in
      is_open-owns (sockets uv status) (with_copy k s) j m x (with_copy-old s j k (owns m) e) at_m
      ∙ sym (is_open-owns (sockets uv status) s j m x e at_m)

  -- What `close` of object `c` does, where object `i` of `s` has been copied.
  abbrev pub Closed : Store SocketImpl → Store SocketImpl → ℕ → ℕ → ℕ → Type 0
  Closed s t i k c =
      (u : Store SocketImpl) × (socket_close (sockets uv status) c t ≡ some u)
      × (handle_is_open (sockets uv status) i u ≡ some false)
      × (handle_is_open (sockets uv status) (length s.handles) u ≡ some false)
      × ((j m : ℕ)
          → get_elem? s.handles j ≡ some (owns m)
          → handle_is_open (sockets uv status) j u
            ≡ (if k == m then some false else handle_is_open (sockets uv status) j s))

  closed_by :
      (s : Store SocketImpl) (i k c : ℕ)
      → Owned (sockets uv status) s
      → Owned (sockets uv status) (with_copy k s)
      → get_elem? s.handles i ≡ some (owns k)
      → get_elem? (with_copy k s).handles c ≡ some (owns k)
      → Closed s (with_copy k s) i k c
  closed_by s i k c v w e f =
      let (u, runs, seen) =
        socket_close-shared (sockets uv status) (close-closes uv status) (with_copy k s) c k w f in
      let same : (k == k) ≡ true = ground arith in
      (
        u,
        runs,
        rw same at (seen i k (with_copy-old s i k (owns k) e)),
        rw same at (seen (length s.handles) k (with_copy-new s k)),
        λ j m g. rw (with_copy-is_open s j k m v g) at (seen j m (with_copy-old s j k (owns m) g)),
      )

  -- After any operations on `socket` objects that have a meaning, an object that owns an
  -- implementation can be copied, and then the copy shares it: `close` of either of the two has a
  -- meaning, and after it both are closed, as is every other object with the same implementation,
  -- while each of the rest that owns one is open or closed as it was before the copy. This is of
  -- `socket_impl` itself, up to the wait in its `close`, whatever `uv_shutdown` returns.
  pub copy-socket_close :
      (os : List (Op SocketImpl)) (s : Store SocketImpl) (i k : ℕ)
      → run (sockets uv status) os no_objects ≡ some s
      → get_elem? s.handles i ≡ some (owns k)
      → (t : Store SocketImpl) × (step (sockets uv status) (copy i) s ≡ some t)
        × Closed s t i k i
        × Closed s t i k (length s.handles)
  copy-socket_close os s i k r e =
      let v = run-no_objects-Owned (sockets uv status) (close-closes uv status) os s r in
      let w : Owned (sockets uv status) (with_copy k s) =
        rw (copy-owns s i k e) at
          (step-Owned (sockets uv status) (close-closes uv status) (copy i) s v) in
      (
        with_copy k s,
        copy-owns s i k e,
        closed_by s i k i v w e (with_copy-old s i k (owns k) e),
        closed_by s i k (length s.handles) v w e (with_copy-new s k),
      )
