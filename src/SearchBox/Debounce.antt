-- ===== src/SearchBox/Debounce.antt =====
-- The key timer of the search field and the searches that are pending.
use fiberio.Base.{
  ℕ, suc, ◌≤◌, ◌<◌, ◌≡◌, refl, Bool, true, false, ◌||◌, List, [], ◌∷◌, Option, none, some, ◌==◌,
  if◌then◌else◌, arith,
}
use fiberio.SearchResults.{Row}
use fiberio.SearchResults.Nav.{nav_next}
use fiberio.SearchBox.{
  SearchBox, Site, Timer, run_search, run_close_selection, state_of, drop_timer, BoxFocus, body,
  result_item, select_item,
}
use fiberio.SearchBox.Geometry.{Layout}
use fiberio.SearchBox.Actions.{activate, move_focus, on_search_select_show, search, open_popup}
use fiberio.SearchBox.Events.{
  KeyPress, first_select_item, focus_on, kill_key_timer, field_changed, escape_field,
  on_search_field_change, fire,
}

-- The ids of the pending timers are below `n`, those of searches are all `key`, and there are none
-- twice.
abbrev pub Timed : ℕ → ℕ → List Timer → Type 0
Timed n key [] = Unit {0}
Timed n key (t ∷ ts) =
    (t.id < n) × (0 < t.id) × (t.callback ≡ run_search → t.id ≡ key) × Timed n key ts

abbrev pub searches : List Timer → ℕ
searches [] = 0
searches (t ∷ ts) = elim t.callback [
  | run_search ↦ suc (searches ts)
  | run_close_selection ↦ searches ts
]

pub record Debounced (s : SearchBox) : Type 0 where
  pub fresh : s.key_timeout < s.next_timer
  pub timed : Timed s.next_timer s.key_timeout s.timers
  pub single : searches s.timers ≤ 1

pub Timed-drop : (i n key : ℕ) (ts : List Timer) → Timed n key ts → Timed n key (drop_timer i ts)
Timed-drop i n key [] h = tt
Timed-drop i n key (t ∷ ts) h = ground (arith, Timed-drop i n key ts)

Timed-forget : (n key k : ℕ) (ts : List Timer) → Timed n key ts → Timed n k (drop_timer key ts)
Timed-forget n key k [] h = tt
Timed-forget n key k (t ∷ ts) h = ground (arith, Timed-forget n key k ts)

pub searches-drop : (i : ℕ) (ts : List Timer) → searches (drop_timer i ts) ≤ searches ts
searches-drop i [] = omega arith
searches-drop i (t ∷ ts) = ground (arith, searches-drop i ts)

searches-drop_key :
    (n key : ℕ) (ts : List Timer) → Timed n key ts → searches (drop_timer key ts) ≡ 0
searches-drop_key n key [] h = refl
searches-drop_key n key (t ∷ ts) h = ground (arith, searches-drop_key n key ts)

searches-zero : (n : ℕ) (ts : List Timer) → Timed n 0 ts → searches ts ≡ 0
searches-zero n [] h = refl
searches-zero n (t ∷ ts) h = ground (arith, searches-zero n ts)

pub Timed-next : (n key : ℕ) (ts : List Timer) → Timed n key ts → Timed (suc n) key ts
Timed-next n key [] h = tt
Timed-next n key (t ∷ ts) h = ground (arith, Timed-next n key ts)

Timed-past : (n : ℕ) (ts : List Timer) → Timed n 0 ts → Timed n n ts
Timed-past n [] h = tt
Timed-past n (t ∷ ts) h = ground (arith, Timed-past n ts)

-- No search is pending.
record Quiet (s : SearchBox) : Type 0 where
  key : s.key_timeout ≡ 0
  some_left : 0 < s.next_timer
  timed : Timed s.next_timer 0 s.timers

Quiet-Debounced : {s : SearchBox} → Quiet s → Debounced s
Quiet-Debounced {s} q = record {
  fresh = omega (arith, q.key, q.some_left);
  timed = rw q.key q.timed;
  single = omega (arith, searches-zero s.next_timer s.timers q.timed);
}

kill_key_timer-Quiet : (s : SearchBox) → Debounced s → Quiet (kill_key_timer s)
unfolding kill_key_timer
kill_key_timer-Quiet s v = ground (arith, Timed-forget s.next_timer s.key_timeout 0 s.timers)

activate-Quiet : (b : Bool) (s : SearchBox) → Quiet s → Quiet (activate b s)
unfolding activate
activate-Quiet b s q = ground arith

move_focus-Quiet : (f : BoxFocus) (s : SearchBox) → Quiet s → Quiet (move_focus f s)
unfolding move_focus
move_focus-Quiet f s q = ground (
  arith,
  activate-Quiet false (record s { focus = f }),
  activate-Quiet true (record s { focus = f }),
)

focus_on-Quiet :
    (f : ℕ → BoxFocus) (o : Option ℕ) (s : SearchBox) → Quiet s → Quiet (focus_on f o s)
focus_on-Quiet f none s q = q
focus_on-Quiet f (some i) s q = move_focus-Quiet (f i) s q

on_search_select_show-Quiet :
    (l : Layout) (s : SearchBox) → Quiet s → Quiet (on_search_select_show l s)
unfolding on_search_select_show
on_search_select_show-Quiet l s q =
    ground (arith, Timed-drop s.hide_timeout s.next_timer 0 s.timers)

field_changed-Debounced : (s : SearchBox) → Quiet s → Debounced (field_changed s)
unfolding field_changed
field_changed-Debounced s q = ground (
  arith,
  Quiet-Debounced {s = s} q,
  searches-zero s.next_timer s.timers q.timed,
  Timed-next s.next_timer s.next_timer s.timers,
  Timed-past s.next_timer s.timers q.timed,
)

-- A property of both branches is one of the conditional.
if_both {ℓ κ} :
    {A : Type ℓ} (P : A → Type κ) (b : Bool) {x y : A} → P x → P y → P (if b then x else y)
if_both P true p q = p
if_both P false p q = q

results-Quiet :
    (results : Option (List Row)) (s : SearchBox)
    → Quiet s
    → Quiet (elim results [ none ↦ s | some rows ↦ focus_on result_item (nav_next rows 0) s ])
results-Quiet none s q = q
results-Quiet (some rows) s q = focus_on-Quiet result_item (nav_next rows 0) s q

escape_field-Quiet : (s : SearchBox) → Quiet s → Quiet (escape_field s)
unfolding escape_field
escape_field-Quiet s q =
    activate-Quiet false _ (record { key = m.key; some_left = m.some_left; timed = m.timed })
  where
    m : Quiet (move_focus body s)
    m = move_focus-Quiet body s q

-- Every change of the search field, whatever the key, keeps at most one search pending, and the
-- object's `keyTimeout` is its timer.
pub on_search_field_change-Debounced :
    (l : Layout) (results : Option (List Row)) (e : KeyPress) (s : SearchBox)
    → Debounced s
    → Debounced (on_search_field_change l results e s)
unfolding on_search_field_change
on_search_field_change-Debounced l results e s v =
    if_both Debounced (e.key_code == 40 || e.key_code == 13)
      (if_both Debounced e.shift_key
        (Quiet-Debounced (
          focus_on-Quiet select_item (first_select_item 0 (kill_key_timer s).select_children) _
            (on_search_select_show-Quiet l _ q)))
        (field_changed-Debounced _ (results-Quiet results _ q)))
      (if_both Debounced (e.key_code == 27) (Quiet-Debounced (escape_field-Quiet _ q))
        (field_changed-Debounced _ q))
  where
    q : Quiet (kill_key_timer s)
    q = kill_key_timer-Quiet s v

pub open_popup-timers :
    (l : Layout) (s : SearchBox)
    → ((open_popup l s).timers ≡ s.timers) × ((open_popup l s).next_timer ≡ s.next_timer)
unfolding open_popup
open_popup-timers l s = ground arith

search-timers :
    (site : Site) (l : Layout) (s : SearchBox)
    → let s' = state_of (search site l s) in
      (s'.timers ≡ s.timers) × (s'.next_timer ≡ s.next_timer) × (s'.key_timeout ≡ 0)
unfolding search
search-timers site l s = ground (arith, open_popup-timers l s)

-- When the search timer that `keyTimeout` names runs out, no search is pending after it and
-- `keyTimeout` is 0.
pub fire-Debounced :
    (site : Site) (l : Layout) (t : Timer) (s : SearchBox)
    → Debounced s
    → t.id ≡ s.key_timeout
    → t.callback ≡ run_search
    → let s' = state_of (fire site l t s) in
      Debounced s' × (searches s'.timers ≡ 0) × (s'.key_timeout ≡ 0)
unfolding fire
fire-Debounced site l t s v e c = ground (
  arith,
  search-timers site l (record s { timers = drop_timer t.id s.timers }),
  searches-drop_key s.next_timer s.key_timeout s.timers v.timed,
  Timed-forget s.next_timer s.key_timeout 0 s.timers v.timed,
)
