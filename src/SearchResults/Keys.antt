-- ===== src/SearchResults/Keys.antt =====
-- SearchResults.ProcessKeys: which key events of the results page are acted upon.
use fiberio.Base.{
  ℕ, zero, suc, ◌≡◌, refl, ◌≢◌, Bool, true, false, not, List, [], ◌∷◌, ◌++◌, arith, ◌==◌,
  if◌then◌else◌,
}
use fiberio.SearchResults.{SearchResults}

-- `e.type`; `other` is any further kind of event.
pub data EventType : Type 0 where
  keydown keypress keyup other : EventType

pub record KeyEvent : Type 0 where
  pub type : EventType
  pub key_code : ℕ

-- Whether the event is to be acted upon: a key is held, and it is no first press.
unfoldable pub process_keys : KeyEvent → SearchResults → Bool × SearchResults
process_keys e this = elim e.type [
  | keydown ↦ held (record this { repeat_on = false; last_key = e.key_code })
  | keypress ↦
      if this.repeat_on
      then held this
      else (false, if this.last_key == 0 then this else record this { repeat_on = true })
  | keyup ↦ held (record this { last_key = 0; repeat_on = false })
  | other ↦ held this
]
  where
    held : SearchResults → Bool × SearchResults
    held s = (not (s.last_key == 0), s)

-- The events one after the other, with what is acted upon.
unfoldable pub process_all : List KeyEvent → SearchResults → List Bool × SearchResults
process_all [] this = ([], this)
process_all (e ∷ es) this =
    let (acts, this') = process_keys e this in
    let (rest, final) = process_all es this' in (acts ∷ rest, final)

abbrev pub press : ℕ → KeyEvent
press k = record { type = keypress; key_code = k }

abbrev pub presses : ℕ → ℕ → List KeyEvent
presses k zero = []
presses k (suc n) = press k ∷ presses k n

abbrev pub trues : ℕ → List Bool
trues zero = []
trues (suc n) = true ∷ trues n

abbrev pub release : ℕ → KeyEvent
release k = record { type = keyup; key_code = k }

abbrev pub cleared : SearchResults → SearchResults
cleared this = record this { last_key = 0; repeat_on = false }

process_all-repeat :
    (k n : ℕ) (this : SearchResults)
    → this.repeat_on ≡ true
    → this.last_key ≢ 0
    → process_all (presses k n ++ release k ∷ []) this ≡ (trues n ++ false ∷ [], cleared this)
unfolding process_all process_keys
process_all-repeat k zero this r h = refl
process_all-repeat k (suc n) this r h = ground (arith, process_all-repeat k n this)

-- A key that goes down, repeats `n + 1` presses and comes up is acted upon at the keydown and at
-- each press but the first; the release leaves no key held.
process_all-stroke :
    (k n : ℕ) (this : SearchResults)
    → k ≢ 0
    → process_all
        (record { type = keydown; key_code = k } ∷ press k ∷ (presses k n ++ release k ∷ []))
        this
      ≡ (true ∷ false ∷ (trues n ++ false ∷ []), cleared this)
unfolding process_all process_keys
process_all-stroke k n this h =
    ground (arith, process_all-repeat k n (record this { last_key = k; repeat_on = true }))
