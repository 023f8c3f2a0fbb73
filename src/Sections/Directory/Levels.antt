-- ===== src/Sections/Directory/Levels.antt =====
-- What toggleLevel shows, and the stripes.
use fiberio.Base.{
  ℕ, ◌+◌, ◌≡◌, refl, Bool, true, false, not, ◌&&◌, List, [], ◌∷◌, map, leb, if◌then◌else◌, arith,
  ap, ◌∙◌,
}
use fiberio.Sections.Directory.{Row, stripes, update_stripes, depth, level_row, toggle_level}

-- The `even` of the visible rows, in their order.
abbrev pub visible_stripes : List Row → List Bool
visible_stripes [] = []
visible_stripes (r ∷ rows) =
    if r.visible then r.even ∷ visible_stripes rows else visible_stripes rows

abbrev pub hidden_stripes : List Row → List Bool
hidden_stripes [] = []
hidden_stripes (r ∷ rows) = if r.visible then hidden_stripes rows else r.even ∷ hidden_stripes rows

-- As many as the list has elements, in turn, from `b` on.
abbrev pub alternate {ℓ} : {A : Type ℓ} → Bool → List A → List Bool
alternate b [] = []
alternate b (x ∷ xs) = b ∷ alternate (not b) xs

abbrev pub all_false : List Bool → Bool
all_false [] = true
all_false (b ∷ bs) = not b && all_false bs

-- A row but for its stripe.
abbrev pub plain : Row → Row
plain r = record r { even = false }

stripes-alternate :
    (b : Bool) (rows : List Row)
    → let s = stripes b rows in
      (visible_stripes s ≡ alternate b (visible_stripes s))
      × (all_false (hidden_stripes s) ≡ true)
      × (map plain s ≡ map plain rows)
unfolding stripes
stripes-alternate b [] = (refl, refl, refl)
stripes-alternate b (r ∷ rows) =
    ground (arith, stripes-alternate (if r.visible then not b else b) rows)

pub update_stripes-alternate :
    (rows : List Row)
    → let s = update_stripes rows in
      (visible_stripes s ≡ alternate true (visible_stripes s))
      × (all_false (hidden_stripes s) ≡ true)
      × (map plain s ≡ map plain rows)
unfolding update_stripes
update_stripes-alternate rows = stripes-alternate true rows

map-level_row :
    (level : ℕ) (rows : List Row)
    → map (λ (r : Row). r.visible) (map (level_row level) rows)
      ≡ map (λ (r : Row). leb (depth r.id) (level + 1)) rows
unfolding level_row
map-level_row level [] = refl
map-level_row level (r ∷ rows) = ground (arith, map-level_row level rows)

pub visible-stripes :
    (b : Bool) (rows : List Row)
    → map (λ (r : Row). r.visible) (stripes b rows) ≡ map (λ (r : Row). r.visible) rows
unfolding stripes
visible-stripes b [] = refl
visible-stripes b (r ∷ rows) =
    ap (λ (t : List Bool). r.visible ∷ t) (visible-stripes (if r.visible then not b else b) rows)

-- After `toggleLevel` a row is visible exactly if its depth is at most one more than the level, and
-- the visible rows are striped in turn.
pub toggle_level-visible :
    (level : ℕ) (rows : List Row)
    → let s = toggle_level level rows in
      (map (λ (r : Row). r.visible) s ≡ map (λ (r : Row). leb (depth r.id) (level + 1)) rows)
      × (visible_stripes s ≡ alternate true (visible_stripes s))
unfolding toggle_level update_stripes
toggle_level-visible level rows = (
  visible-stripes true (map (level_row level) rows) ∙ map-level_row level rows,
  (stripes-alternate true (map (level_row level) rows)).0,
)
