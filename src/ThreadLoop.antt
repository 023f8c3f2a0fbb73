-- ===== src/ThreadLoop.antt =====
-- src/loop.cpp: the event loop of a thread and its two handles, which are made when one of them is
-- first asked for. libuv's functions are recorded in the order of their calls.
pub mod Lifetime
use fiberio.Base.{Bool, true, false, List, [], ◌∷◌, ◌++◌, if◌then◌else◌}

-- The three objects of `thread_uv_loop`.
pub data Part : Type 0 where
  loop timer async : Part

-- `uv_loop_init`, `uv_timer_init` or `uv_async_init`; a pointer that is handed out; `close_handle`, or
-- `uv_loop_close`.
pub data Call : Type 0 where
  init : Part → Call
  give : Part → Call
  shut : Part → Call

pub record ThreadUvLoop : Type 0 where
  pub ready : Bool
  pub calls : List Call

abbrev pub new : ThreadUvLoop
new = record { ready = false; calls = [] }

unfoldable pub make_ready : ThreadUvLoop → ThreadUvLoop
make_ready t =
    if t.ready
    then t
    else record { ready = true; calls = t.calls ++ init loop ∷ init timer ∷ init async ∷ [] }

-- `get_loop()`, `get_timer()` and `get_async()`.
unfoldable pub get : Part → ThreadUvLoop → ThreadUvLoop
get p this = let t = make_ready this in record t { calls = t.calls ++ give p ∷ [] }

-- The destructor, at the end of the thread.
unfoldable pub destruct : ThreadUvLoop → ThreadUvLoop
destruct t =
    if t.ready then record t { calls = t.calls ++ shut async ∷ shut timer ∷ shut loop ∷ [] } else t

-- What a thread asks for, one after the other.
pub get_all : List Part → ThreadUvLoop → ThreadUvLoop
get_all [] t = t
get_all (p ∷ ps) t = get_all ps (get p t)
