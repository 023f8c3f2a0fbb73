-- ===== src/Sections.antt =====
-- docs/html/dynsections.js: the sections, member groups and directory rows of the documentation pages
-- that open and close. Whether an element is visible is its own `display`, as `show` and `hide` leave
-- it; the images that the code changes are there.
pub mod Tips
pub mod Images
pub mod Directory
use fiberio.Base.{
  ℕ, ◌-◌, Bool, true, false, not, List, [], ◌∷◌, ◌++◌, map, if◌then◌else◌, Text, codes, length,
  take,
}

-- `src.substring(0,src.length-n)`; `substring` takes a negative bound for 0.
abbrev pub cut : ℕ → Text → Text
cut n src = take (length src - n) src

abbrev pub to_closed : Text → Text
to_closed src = cut 8 src ++ codes "closed.png"

abbrev pub to_open : Text → Text
to_open src = cut 10 src ++ codes "open.png"

-- A link with its `-summary`, `-content` and `-trigger`: the two classes of the link, whether the
-- other elements are visible, and the image of the trigger.
pub record Section : Type 0 where
  pub opened : Bool
  pub closed : Bool
  pub content : Bool
  pub summary : Bool
  pub src : Text

-- `toggleVisibility(linkObj)`; it returns false.
unfoldable pub toggle_visibility : Section → Section
toggle_visibility s =
    if s.content
    then record {
      content = false;
      summary = true;
      closed = true;
      opened = false;
      src = to_closed s.src;
    }
    else record {
      content = true;
      summary = false;
      closed = false;
      opened = true;
      src = to_open s.src;
    }

-- The rows `tr.inherit.<id>`, by whether they are visible, and the image of their header.
pub record Inherited : Type 0 where
  pub rows : List Bool
  pub src : Text

-- `rows.filter(':first').is(':visible')`
abbrev pub first_visible : List Bool → Bool
first_visible [] = false
first_visible (b ∷ bs) = b

-- `toggleInherit(id)`
unfoldable pub toggle_inherit : Inherited → Inherited
toggle_inherit g =
    if first_visible g.rows
    then record { rows = map (λ b. false) g.rows; src = to_closed g.src }
    else record { rows = map (λ b. true) g.rows; src = to_open g.src }
