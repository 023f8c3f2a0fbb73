-- ===== src/Scheduler/Queue.antt =====
-- The ready queue of src/scheduler.cpp and its order.
use fiberio.Base.{
  ℕ, zero, suc, ◌+◌, ◌≡◌, refl, false, List, [], ◌∷◌, ◌++◌, Option, none, some, length,
  length-append, ap, ◌∙◌,
}
use mathlib.Core.List.{append_assoc, append-nil}
use fiberio.Scheduler.{Scheduler, awakened, pick_next, has_ready_fibers}

abbrev pub awaken_all : List ℕ → Scheduler → Scheduler
awaken_all [] s = s
awaken_all (f ∷ fs) s = awaken_all fs (awakened f s)

-- What `n` calls of `pick_next` return.
abbrev pub pick_many : ℕ → Scheduler → List (Option ℕ) × Scheduler
pick_many zero s = ([], s)
pick_many (suc n) s = let (f, s') = pick_next s in let (fs, last) = pick_many n s' in (f ∷ fs, last)

abbrev pub all_some : List ℕ → List (Option ℕ)
all_some [] = []
all_some (f ∷ fs) = some f ∷ all_some fs

queue-awaken_all :
    (fs : List ℕ) (s : Scheduler) → awaken_all fs s ≡ record s { queue = s.queue ++ fs }
unfolding awakened
queue-awaken_all [] s = rw append-nil refl
queue-awaken_all (f ∷ fs) s =
    queue-awaken_all fs (awakened f s)
    ∙ ap (λ (q : List ℕ). record s { queue = q }) (append_assoc s.queue (f ∷ []) fs)

pick_many-queue :
    (q : List ℕ) (s : Scheduler)
    → pick_many (length q) (record s { queue = q }) ≡ (all_some q, record s { queue = [] })
unfolding pick_next
pick_many-queue [] s = refl
pick_many-queue (f ∷ q) s = rw (pick_many-queue q s) refl

-- After any fibers have been awakened, as many picks as there are ready fibers return them all,
-- those that were ready before first and then in the order of awakening, and leave none ready.
pick_many-awaken_all :
    (fs : List ℕ) (s : Scheduler)
    → let (picked, s') = pick_many (length s.queue + length fs) (awaken_all fs s) in
      (picked ≡ all_some (s.queue ++ fs))
      × (has_ready_fibers s' ≡ false)
      × (pick_next s' ≡ (none, s'))
unfolding has_ready_fibers pick_next
pick_many-awaken_all fs s = rw all_picked (refl, refl, refl)
  where
    all_picked :
        pick_many (length s.queue + length fs) (awaken_all fs s)
        ≡ (all_some (s.queue ++ fs), record s { queue = [] })
    all_picked =
        rw (← length-append s.queue fs, queue-awaken_all fs s) (pick_many-queue (s.queue ++ fs) s)
