-- ===== src/SearchBox/Histories.antt =====
-- The search box of docs/html/search/search.js over any events of the page but selections in the
-- filter menu: the handlers, one after the other, and the timers that run out between them.
use fiberio.Base.{
  ℕ, zero, suc, ◌⊎◌, ◌≡◌, refl, Bool, false, List, [], ◌∷◌, Option, none, some, Text, arith,
  get_elem?, Option-cases, inl, inr,
}
use fiberio.SearchResults.{Row}
use fiberio.SearchBox.{SearchBox, Site, Timer, Callback, run_search, run_close_selection, state_of}
use fiberio.SearchBox.Geometry.{Layout}
use fiberio.SearchBox.Actions.{
  activate, close_results_window, close_selection_window, on_search_select_show,
  on_search_select_hide,
}
use fiberio.SearchBox.Events.{KeyPress, on_search_field_change, fire}
use fiberio.SearchBox.Debounce.{
  Timed, Debounced, Timed-drop, searches-drop, Timed-next, on_search_field_change-Debounced,
  fire-Debounced,
}

-- `change` is a key in the search field, `typed` a new text in it, `focus` a change of its focus,
-- and `time_out n` the end of the `n`-th pending timer.
pub data Event : Type 0 where
  change : Option (List Row) → KeyPress → Event
  typed : Text → Event
  focus : Bool → Event
  time_out : ℕ → Event
  select_show select_hide close_results close_selection : Event

module _ (site : Site) (l : Layout) where
  abbrev pub handle : Event → SearchBox → SearchBox
  handle (change results e) s = on_search_field_change l results e s
  handle (typed v) s = record s { field_value = v }
  handle (focus is_active) s = activate is_active s
  handle (time_out n) s = elim (get_elem? s.timers n) [
    | none ↦ s
    | some t ↦ state_of (fire site l t s)
  ]
  handle select_show s = on_search_select_show l s
  handle select_hide s = on_search_select_hide s
  handle close_results s = close_results_window s
  handle close_selection s = close_selection_window s

  abbrev pub handle_all : List Event → SearchBox → SearchBox
  handle_all [] s = s
  handle_all (e ∷ es) s = handle_all es (handle e s)

-- States with the same timers and key timer are alike.
pub Debounced-same :
    (s s' : SearchBox)
    → s'.timers ≡ s.timers
    → s'.next_timer ≡ s.next_timer
    → s'.key_timeout ≡ s.key_timeout
    → Debounced s
    → Debounced s'
Debounced-same s s' t n k v = record {
  fresh = rw (k, n) v.fresh;
  timed = rw (t, n, k) v.timed;
  single = rw t v.single;
}

activate-Debounced : (b : Bool) (s : SearchBox) → Debounced s → Debounced (activate b s)
unfolding activate
activate-Debounced b s v = ground (arith, v.fresh, v.timed, v.single)

on_search_select_show-Debounced :
    (l : Layout) (s : SearchBox) → Debounced s → Debounced (on_search_select_show l s)
unfolding on_search_select_show
on_search_select_show-Debounced l s v = ground (
  arith,
  Timed-drop s.hide_timeout s.next_timer s.key_timeout s.timers,
  searches-drop s.hide_timeout s.timers,
)

on_search_select_hide-Debounced :
    (s : SearchBox) → Debounced s → Debounced (on_search_select_hide s)
unfolding on_search_select_hide
on_search_select_hide-Debounced s v = ground (arith, Timed-next s.next_timer s.key_timeout s.timers)

Timed-search :
    (n key i : ℕ) (ts : List Timer) (t : Timer)
    → Timed n key ts
    → get_elem? ts i ≡ some t
    → t.callback ≡ run_search
    → t.id ≡ key
Timed-search n key i [] t h e c = absurd (cc)
Timed-search n key zero (u ∷ ts) t h e c = ground (arith, h.2, e, c)
Timed-search n key (suc i) (u ∷ ts) t h e c = Timed-search n key i ts t h.3 e c

fire_close-Debounced :
    (site : Site) (l : Layout) (t : Timer) (s : SearchBox)
    → Debounced s
    → t.callback ≡ run_close_selection
    → Debounced (state_of (fire site l t s))
unfolding fire close_selection_window
fire_close-Debounced site l t s v c =
    ground (arith, Timed-drop t.id s.next_timer s.key_timeout s.timers, searches-drop t.id s.timers)

Callback-cases : (c : Callback) → (c ≡ run_search) ⊎ (c ≡ run_close_selection)
Callback-cases run_search = inl refl
Callback-cases run_close_selection = inr refl

time_out-Debounced :
    (site : Site) (l : Layout) (n : ℕ) (s : SearchBox)
    → Debounced s
    → Debounced (handle site l (time_out n) s)
time_out-Debounced site l n s v = elim (Option-cases (get_elem? s.timers n)) [
  | inl e ↦ rw (handle, e) v
  | inr (t, e) ↦
      rw (handle, e)
        (elim (Callback-cases t.callback) [
          | inl c ↦
              (fire-Debounced site l t s v
                (Timed-search s.next_timer s.key_timeout n s.timers t v.timed e c) c).0
          | inr c ↦ fire_close-Debounced site l t s v c
        ])
]

handle-Debounced :
    (site : Site) (l : Layout) (e : Event) (s : SearchBox)
    → Debounced s
    → Debounced (handle site l e s)
unfolding close_results_window close_selection_window
handle-Debounced site l (change results e) s v = on_search_field_change-Debounced l results e s v
handle-Debounced site l (typed t) s v = Debounced-same s _ refl refl refl v
handle-Debounced site l (focus b) s v = activate-Debounced b s v
handle-Debounced site l (time_out n) s v = time_out-Debounced site l n s v
handle-Debounced site l select_show s v = on_search_select_show-Debounced l s v
handle-Debounced site l select_hide s v = on_search_select_hide-Debounced s v
handle-Debounced site l close_results s v =
    activate-Debounced false _ (Debounced-same s _ refl refl refl v)
handle-Debounced site l close_selection s v = Debounced-same s _ refl refl refl v

-- Whatever keys, texts, changes of the focus, openings and closings of the two windows and timers
-- that run out follow one another, at most one search stays pending, and the object's `keyTimeout`
-- is its timer. Selections in the filter menu are not among these events.
pub handle_all-Debounced :
    (site : Site) (l : Layout) (es : List Event) (s : SearchBox)
    → Debounced s
    → Debounced (handle_all site l es s)
handle_all-Debounced site l [] s v = v
handle_all-Debounced site l (e ∷ es) s v =
    handle_all-Debounced site l es (handle site l e s) (handle-Debounced site l e s v)
