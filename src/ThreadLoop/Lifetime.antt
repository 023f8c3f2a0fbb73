-- ===== src/ThreadLoop/Lifetime.antt =====
-- The calls of libuv in the life of a thread.
use fiberio.Base.{◌≡◌, refl, true, List, [], ◌∷◌, ◌++◌, map}
use mathlib.Core.List.{append_assoc, append-nil}
use fiberio.ThreadLoop.{
  Part, loop, timer, async, Call, init, give, shut, new, make_ready, get, destruct, get_all,
}

abbrev pub inits : List Call
inits = init loop ∷ init timer ∷ init async ∷ []

abbrev pub shuts : List Call
shuts = shut async ∷ shut timer ∷ shut loop ∷ []

-- The calls of a thread that asks for these.
abbrev pub life : List Part → List Call
life [] = []
life (p ∷ ps) = inits ++ (map give (p ∷ ps) ++ shuts)

get_all-ready :
    (ps : List Part) (cs : List Call)
    → get_all ps (record { ready = true; calls = cs })
      ≡ record { ready = true; calls = cs ++ map give ps }
unfolding get_all get make_ready
get_all-ready [] cs = rw append-nil refl
get_all-ready (p ∷ ps) cs = rw (get_all-ready ps (cs ++ give p ∷ []), append_assoc) refl

-- In the life of a thread the loop and its two handles are initialised once, before the first
-- pointer is handed out and only if one is asked for, and they are closed once, at its end, the
-- loop last; each pointer that is asked for is handed out.
pub destruct-get_all : (ps : List Part) → (destruct (get_all ps new)).calls ≡ life ps
unfolding destruct get_all get make_ready
destruct-get_all [] = refl
destruct-get_all (p ∷ ps) = rw (get_all-ready ps (inits ++ give p ∷ [])) refl
