-- ===== src/SearchResults/Create/Markup.antt =====
-- The elements that createResults of docs/html/search/search.js puts on the results page, with all
-- attributes that it gives them; setKeyActions gives three key events one action, and setClassAttr
-- two attributes one class.
pub mod Ids
pub mod Links
use fiberio.Base.{
  ℕ, zero, suc, ◌+◌, ◌/◌, ◌%◌, List, [], ◌∷◌, ◌++◌, Option, none, some, ltb, ◌==◌, if◌then◌else◌,
  Text, codes,
}
use fiberio.SearchResults.Search.{result_class}
use fiberio.SearchResults.Create.{Result, Entry}

-- A number in a text, in decimal; a digit is produced for each unit of fuel.
unfoldable pub decimal_digits : ℕ → ℕ → Text → Text
decimal_digits zero n acc = acc
decimal_digits (suc f) n acc =
    let rest = decimal_digits f (n / 10) ((n % 10 + b'0') ∷ acc) in
    if ltb n 10 then (n + b'0') ∷ acc else rest

unfoldable pub to_decimal : ℕ → Text
to_decimal n = decimal_digits (suc n) n []

-- An element `a`.
pub record Anchor : Type 0 where
  pub id : Text
  pub key_action : Text
  pub class_name : Text
  pub text : Text
  pub href : Text
  pub target : Option Text

-- After the link of an entry, in the `div` of class SREntry around both: a span of class SRScope
-- with the scope of its only result, or a `div` of class SRChildren with a link for each.
pub data Rest : Type 0 where
  scope : Text → Rest
  children : List Anchor → Rest

pub record Element : Type 0 where
  pub id : Text
  pub class_name : Text
  pub symbol : Anchor
  pub rest : Rest

-- A number counts as true but for 0.
abbrev pub parent_target : ℕ → Option Text
parent_target n = if n == 0 then none else some (codes "_parent")

abbrev pub link_id : ℕ → Text
link_id e = codes "Item" ++ to_decimal e

abbrev pub child_id : ℕ → ℕ → Text
child_id e c = codes "Item" ++ (to_decimal e ++ (codes "_c" ++ to_decimal c))

abbrev pub child_link : ℕ → ℕ → Result → Anchor
child_link e c r = record {
  id = child_id e c;
  key_action =
      codes "return searchResults.NavChild(event,"
      ++ (to_decimal e ++ (codes "," ++ (to_decimal c ++ codes ")")));
  class_name = codes "SRScope";
  text = r.scope;
  href = r.link;
  target = parent_target r.target;
}

abbrev pub child_links : ℕ → ℕ → List Result → List Anchor
child_links e c [] = []
child_links e c (r ∷ rs) = child_link e c r ∷ child_links e (suc c) rs

abbrev pub rest_of : ℕ → List Result → Rest
rest_of e (r ∷ []) = scope r.scope
rest_of e [] = children []
rest_of e (r ∷ s ∷ rs) = children (child_links e 0 (r ∷ s ∷ rs))

abbrev pub href_of : Text → List Result → Text
href_of id (r ∷ []) = r.link
href_of id _ = codes "javascript:searchResults.Toggle(\"SR_" ++ (id ++ codes "\")")

abbrev pub target_of : List Result → Option Text
target_of (r ∷ []) = parent_target r.target
target_of _ = none

-- `srLink`
abbrev pub symbol_link : ℕ → Entry → Anchor
symbol_link e x = record {
  id = link_id e;
  key_action = codes "return searchResults.Nav(event," ++ (to_decimal e ++ codes ")");
  class_name = codes "SRSymbol";
  text = x.name;
  href = href_of x.id x.results;
  target = target_of x.results;
}

-- `srResult`, one round of the loop.
unfoldable pub create_element : ℕ → Entry → Element
create_element e x = record {
  id = codes "SR_" ++ x.id;
  class_name = result_class;
  symbol = symbol_link e x;
  rest = rest_of e x.results;
}

-- The loop from entry `e` on.
unfoldable pub create_elements : ℕ → List Entry → List Element
create_elements e [] = []
create_elements e (x ∷ xs) = create_element e x ∷ create_elements (suc e) xs
