-- ===== src/SearchResults/Tree.antt =====
-- SearchResults.FindChildElement: a walk over the DOM below one element.
use fiberio.Base.{
  ℕ, zero, suc, ◌+◌, ◌-◌, ◌*◌, ◌≡◌, ◌≤◌, ◌<◌, refl, Bool, true, false, not, ◌&&◌, ◌||◌, List, [],
  ◌∷◌, arith, ltb, ◌==◌, if◌then◌else◌, Option, none, some, length, get_elem?, Option-cases,
  Bool-cases, inl, inr, ap, ◌∙◌, Text, text_eq, codes,
}
use fiberio.SearchResults.{Display, hidden, block, is_block}
pub mod Walk

-- An element: what the code reads of it, and its children; a text node is an element with no
-- children and another node name.
pub record Element : Type 0 where
  pub node_name : Text
  pub class_name : Text
  pub display : Display

mutual
  pub data Node : Type 0 where
    node : Element → Nodes → Node

  pub data Nodes : Type 0 where
    nil : Nodes
    cons : Node → Nodes → Nodes

abbrev pub element : Node → Element
element (node e cs) = e

abbrev pub is_div : Element → Bool
is_div e = text_eq e.node_name (codes "DIV")

-- The test that ends the walk: `nodeName == 'DIV' && className == 'SRChildren'`.
abbrev pub is_target : Element → Bool
is_target e = is_div e && text_eq e.class_name (codes "SRChildren")

-- Where the walk stands: the current element, the siblings after it, and for each ancestor below
-- `parentElement` the siblings after that, innermost first.
pub data Cursor : Type 0 where
  at : Element → Nodes → Nodes → List Nodes → Cursor
  done : Cursor

-- `element.parentNode` until an element has a next sibling, or `parentElement` is met.
unfoldable pub climb : List Nodes → Cursor
climb [] = done
climb (nil ∷ up) = climb up
climb (cons (node e cs) rest ∷ up) = at e cs rest up

-- One round of the loop after a test that failed: into a `DIV` with child nodes, else to the next
-- sibling, else up and on.
unfoldable pub advance : Element → Nodes → Nodes → List Nodes → Cursor
advance e (cons (node c cs) more) rest up =
    if is_div e then at c cs more (rest ∷ up) else climb (rest ∷ up)
advance e nil rest up = climb (rest ∷ up)

-- The loop, one round for each unit of fuel.
unfoldable pub walk : ℕ → Cursor → Option Element
walk zero c = none
walk (suc fuel) done = none
walk (suc fuel) (at e cs rest up) = elim (is_target e) [
  | true ↦ some e
  | false ↦ walk fuel (advance e cs rest up)
]

mutual
  pub size : Node → ℕ
  size (node e cs) = suc (size_all cs)

  pub size_all : Nodes → ℕ
  size_all nil = 0
  size_all (cons n ns) = size n + size_all ns

-- `FindChildElement` below the element with these children; it looks at each node at most once.
unfoldable pub find_child_element : Nodes → Option Element
find_child_element children = walk (suc (size_all children)) (climb (children ∷ []))
