-- ===== src/SearchBox/Geometry.antt =====
-- getXPos and getYPos of docs/html/search/search.js, and the places that are computed from them.
use fiberio.Base.{ℕ, Bool, List, [], ◌∷◌, ◌==◌, if◌then◌else◌}
use fiberio.Base.Int.{ℤ, pos, ◌+ℤ◌, ◌-ℤ◌}

-- An element and its chain of `offsetParent`s up to the body, the body left out.
pub record Offset : Type 0 where
  pub left : ℤ
  pub top : ℤ

pub record Box : Type 0 where
  pub width : ℕ
  pub height : ℕ
  pub chain : List Offset

-- `style.left`, `style.top` and `style.width` in pixels.
pub record Place : Type 0 where
  pub left : ℤ
  pub top : ℤ
  pub width : ℤ

-- What the code reads of the page's layout.
pub record Layout : Type 0 where
  pub search_select : Box
  pub search_box : Box
  pub select_window_width : ℕ
  pub results_width : ℕ
  pub client_width : ℕ

abbrev pub sum_left : ℤ → List Offset → ℤ
sum_left x [] = x
sum_left x (o ∷ os) = sum_left (x +ℤ o.left) os

abbrev pub sum_top : ℤ → List Offset → ℤ
sum_top y [] = y
sum_top y (o ∷ os) = sum_top (y +ℤ o.top) os

-- The chain is walked only from an element with a width.
unfoldable pub get_x_pos : Box → ℤ
get_x_pos b = if b.width == 0 then pos 0 else sum_left (pos 0) b.chain

unfoldable pub get_y_pos : Box → ℤ
get_y_pos b = if b.width == 0 then pos 0 else sum_top (pos 0) b.chain

-- Where OnSearchSelectShow puts the selection window.
unfoldable pub select_place : Bool → Layout → Place → Place
select_place inside_frame l p =
    let left = get_x_pos l.search_select in
    let top = get_y_pos l.search_select in
    if inside_frame
    then record p {
      left = left +ℤ pos l.search_select.width +ℤ pos 6 -ℤ pos l.select_window_width;
      top = top +ℤ pos l.search_select.height;
    }
    else record p { left = left; top = top +ℤ pos l.search_select.height }

-- Where Search puts the results window.
unfoldable pub popup_place : Bool → Layout → Place → Place
popup_place inside_frame l p =
    if inside_frame then record p { width = pos l.client_width -ℤ pos 8 } else record p {
      left = get_x_pos l.search_box +ℤ pos 150 -ℤ pos l.results_width;
      top = get_y_pos l.search_box +ℤ pos 20;
    }
