-- ===== src/Scheduler/History.antt =====
-- The order in which the ready queue of src/scheduler.cpp lets fibers run, over any history of
-- `awakened` and `pick_next`.
use fiberio.Base.{
  ℕ, zero, suc, ◌≡◌, refl, List, [], ◌∷◌, ◌++◌, Option, none, some, ap, ◌∙◌, sym, length,
  length-append, arith,
}
use mathlib.Core.List.{append_assoc, append-nil}
use fiberio.Scheduler.{Scheduler, awakened, pick_next}

-- A call of the scheduler: a fiber is awakened, or the next one is picked.
pub data Turn : Type 0 where
  awaken : ℕ → Turn
  pick : Turn

abbrev pub add_picked : Option ℕ → List ℕ → List ℕ
add_picked none fs = fs
add_picked (some f) fs = f ∷ fs

-- The fibers that a history picks, in order, and the scheduler after it.
abbrev pub run_turns : List Turn → Scheduler → List ℕ × Scheduler
run_turns [] s = ([], s)
run_turns (awaken f ∷ ts) s = run_turns ts (awakened f s)
run_turns (pick ∷ ts) s =
    let (f, s') = pick_next s in let (fs, last) = run_turns ts s' in (add_picked f fs, last)

abbrev pub awakened_in : List Turn → List ℕ
awakened_in [] = []
awakened_in (awaken f ∷ ts) = f ∷ awakened_in ts
awakened_in (pick ∷ ts) = awakened_in ts

-- How often a history picks a fiber while some fiber is ready, with `n` of them at its beginning.
abbrev pub picks_ready : List Turn → ℕ → ℕ
picks_ready [] n = 0
picks_ready (awaken f ∷ ts) n = picks_ready ts (suc n)
picks_ready (pick ∷ ts) zero = picks_ready ts zero
picks_ready (pick ∷ ts) (suc n) = suc (picks_ready ts n)

-- The calls of `ts` with the fibers `q` ready pick those that were ready first, in order, and find a
-- fiber whenever there is one.
abbrev pub InOrder : List Turn → List ℕ → List ℕ × Scheduler → Type 0
InOrder ts q (fs, last) =
    (fs ++ last.queue ≡ q ++ awakened_in ts) × (length fs ≡ picks_ready ts (length q))

run_turns-queue :
    (ts : List Turn) (q : List ℕ) (s : Scheduler)
    → InOrder ts q (run_turns ts (record s { queue = q }))
unfolding awakened pick_next
run_turns-queue [] q s = (sym (append-nil q), refl)
run_turns-queue (awaken f ∷ ts) q s =
    let h = run_turns-queue ts (q ++ f ∷ []) s in
    (
      h.0 ∙ append_assoc q (f ∷ []) (awakened_in ts),
      h.1 ∙ ap (picks_ready ts) (length-append q (f ∷ []) ∙ omega arith),
    )
run_turns-queue (pick ∷ ts) [] s = run_turns-queue ts [] s
run_turns-queue (pick ∷ ts) (f ∷ q) s =
    let h = run_turns-queue ts q s in (ap (λ (l : List ℕ). f ∷ l) h.0, ap suc h.1)

-- However `awakened` and `pick_next` follow one another, the fibers that are picked, followed by
-- those that are still ready, are those that were ready at first and then the awakened ones in the
-- order of awakening; and a fiber is picked each time that one is ready.
pub run_turns-InOrder : (ts : List Turn) (s : Scheduler) → InOrder ts s.queue (run_turns ts s)
run_turns-InOrder ts s = run_turns-queue ts s.queue s
