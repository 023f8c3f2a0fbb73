-- ===== src/Sections/Directory.antt =====
-- The rows of `table.directory`: toggleLevel, toggleFolder and updateStripes of
-- docs/html/dynsections.js. A page has one such table, and the list is its rows from top to bottom.
pub mod Levels
pub mod Folders
use fiberio.Base.{
  ℕ, suc, ◌+◌, Bool, true, false, not, ◌&&◌, ◌||◌, List, [], ◌∷◌, ◌++◌, map, Option, none, some,
  ltb, leb, ◌==◌, if◌then◌else◌, Text, codes, text_eq, starts_with,
}

-- The span of class `iconfopen` or `iconfclosed`, which is `img<id>`, and that of class `arrow`, which
-- is `arr<id>`: 9660 points down and 9654 right. A row may have neither.
pub data Icon : Type 0 where
  folder_open folder_closed : Icon

pub data Arrow : Type 0 where
  down right : Arrow

pub record Row : Type 0 where
  pub id : Text
  pub visible : Bool
  pub even : Bool
  pub icon : Option Icon
  pub arrow : Option Arrow

abbrev pub turn {ℓ} : {A : Type ℓ} → A → Option A → Option A
turn a none = none
turn a (some _) = some a

-- The rows after some that are visible: `even` says whether the next visible one has an even place.
unfoldable pub stripes : Bool → List Row → List Row
stripes even [] = []
stripes even (r ∷ rows) =
    let rest = stripes (if r.visible then not even else even) rows in
    record r { even = r.visible && even } ∷ rest

-- `updateStripes()`
unfoldable pub update_stripes : List Row → List Row
update_stripes rows = stripes true rows

-- `id.split('_').length-1`
abbrev pub depth : Text → ℕ
depth [] = 0
depth (c ∷ s) = if c == b'_' then suc (depth s) else depth s

unfoldable pub level_row : ℕ → Row → Row
level_row level r =
    if ltb (depth r.id) (level + 1)
    then record r { icon = turn folder_open r.icon; arrow = turn down r.arrow; visible = true }
    else if depth r.id == level + 1
    then record r { icon = turn folder_closed r.icon; arrow = turn right r.arrow; visible = true }
    else record r { visible = false }

-- `toggleLevel(level)`
unfoldable pub toggle_level : ℕ → List Row → List Row
toggle_level level rows = update_stripes (map (level_row level) rows)

-- Letters without their case, as the flag `i` compares them.
abbrev pub fold_case : ℕ → ℕ
fold_case c = if leb b'A' c && leb c b'Z' then c + 32 else c

abbrev pub is_digit : ℕ → Bool
is_digit c = leb b'0' c && leb c b'9'

-- `\d*_$`
abbrev pub digits_then_end : Text → Bool
digits_then_end [] = false
digits_then_end (c ∷ s) = if is_digit c then digits_then_end s else c == b'_' && text_eq s []

-- `\d+_$`
abbrev pub number_then_end : Text → Bool
number_then_end [] = false
number_then_end (c ∷ s) = is_digit c && digits_then_end s

-- `new RegExp('^row_'+id+'\\d+_$', "i")` on a row's id, with `row_`+id of digits, letters and `_` for
-- the first text.
unfoldable pub is_child : Text → Text → Bool
is_child [] s = number_then_end s
is_child (c ∷ p) [] = false
is_child (c ∷ p) (d ∷ s) = fold_case c == fold_case d && is_child p s

-- `childRows.filter(':first').is(':visible')`
unfoldable pub first_child_visible : Text → List Row → Bool
first_child_visible p [] = false
first_child_visible p (r ∷ rows) =
    let rest = first_child_visible p rows in if is_child p r.id then r.visible else rest

abbrev pub close_icon : Option Icon → Option Icon
close_icon (some folder_open) = some folder_closed
close_icon i = i

abbrev pub open_icon : Option Icon → Option Icon
open_icon (some folder_closed) = some folder_open
open_icon i = i

unfoldable pub hide_below : Text → Row → Row
hide_below p r = if starts_with p r.id then record r { visible = false } else r

unfoldable pub show_child : Text → Row → Row
show_child p r =
    if is_child p r.id
    then record r { icon = close_icon r.icon; arrow = turn right r.arrow; visible = true }
    else r

-- The clicked row and the rows after it.
unfoldable pub toggle_row : Text → Row → List Row → List Row
toggle_row p current rows =
    if first_child_visible p rows
    then record current { icon = close_icon current.icon; arrow = turn right current.arrow }
      ∷ map (hide_below p) rows
    else record current { icon = open_icon current.icon; arrow = turn down current.arrow }
      ∷ map (show_child p) rows

-- The row whose id is the text is the clicked one; with none nothing changes.
unfoldable pub toggle_at : Text → List Row → List Row
toggle_at p [] = []
toggle_at p (r ∷ rows) =
    let rest = toggle_at p rows in if text_eq r.id p then toggle_row p r rows else r ∷ rest

-- `toggleFolder(id)`
unfoldable pub toggle_folder : Text → List Row → List Row
toggle_folder id rows = update_stripes (toggle_at (codes "row_" ++ id) rows)
