-- ===== src/SearchResults/Tree/Walk.antt =====
-- The walk of FindChildElement against a search in document order.
use fiberio.Base.{
  ℕ, zero, suc, ◌+◌, ◌≡◌, ◌≤◌, ◌<◌, refl, true, false, List, [], ◌∷◌, arith, if◌then◌else◌, Option,
  none, some, Bool-cases, inl, inr, ◌∙◌,
}
use fiberio.SearchResults.Tree.{
  Element, Node, node, Nodes, nil, cons, is_div, is_target, Cursor, at, done, climb, advance, walk,
  size_all, find_child_element,
}

abbrev pub or_else {ℓ} : {A : Type ℓ} → Option A → Option A → Option A
or_else none b = b
or_else (some a) b = some a

-- The first `SRChildren` in document order, below elements that are all `DIV`s.
mutual
  pub first : Node → Option Element
  first (node e cs) = if is_target e then some e else if is_div e then first_of_all cs else none

  pub first_of_all : Nodes → Option Element
  first_of_all nil = none
  first_of_all (cons n ns) = or_else (first n) (first_of_all ns)

-- The first one in the forests of a stack.
first_up : List Nodes → Option Element
first_up [] = none
first_up (ns ∷ up) = or_else (first_of_all ns) (first_up up)

first_at : Cursor → Option Element
first_at done = none
first_at (at e cs rest up) = or_else (first (node e cs)) (first_up (rest ∷ up))

size_up : List Nodes → ℕ
size_up [] = 0
size_up (ns ∷ up) = size_all ns + size_up up

size_at : Cursor → ℕ
size_at done = 0
size_at (at e cs rest up) = suc (size_all cs) + size_up (rest ∷ up)

or_else_assoc {ℓ} :
    {A : Type ℓ} (a b c : Option A) → or_else (or_else a b) c ≡ or_else a (or_else b c)
or_else_assoc none b c = refl
or_else_assoc (some a) b c = refl

first_at-climb : (up : List Nodes) → first_at (climb up) ≡ first_up up
unfolding first_at climb first_up first_of_all
first_at-climb [] = refl
first_at-climb (nil ∷ up) = first_at-climb up
first_at-climb (cons (node e cs) rest ∷ up) = ground arith

size_at-climb : (up : List Nodes) → size_at (climb up) ≡ size_up up
unfolding size_at climb size_up size_all
size_at-climb [] = refl
size_at-climb (nil ∷ up) = omega (arith, size_at-climb up)
size_at-climb (cons (node e cs) rest ∷ up) = omega arith

first_at-advance :
    (e : Element) (cs rest : Nodes) (up : List Nodes)
    → is_target e ≡ false
    → first_at (advance e cs rest up) ≡ first_at (at e cs rest up)
unfolding advance first_at first first_of_all first_up
first_at-advance e nil rest up h = ground (arith, first_at-climb (rest ∷ up))
first_at-advance e (cons (node c cs) more) rest up h = ground (
  arith,
  first_at-climb (rest ∷ up),
  or_else_assoc (first (node c cs)) (first_of_all more) (first_up (rest ∷ up)),
)

size_at-advance :
    (e : Element) (cs rest : Nodes) (up : List Nodes)
    → suc (size_at (advance e cs rest up)) ≤ size_at (at e cs rest up)
unfolding advance size_at size_all size_up
size_at-advance e nil rest up = omega (arith, size_at-climb (rest ∷ up))
size_at-advance e (cons (node c cs) more) rest up = ground (arith, size_at-climb (rest ∷ up))

walk-found :
    (fuel : ℕ) (e : Element) (cs rest : Nodes) (up : List Nodes)
    → is_target e ≡ true
    → walk (suc fuel) (at e cs rest up) ≡ first_at (at e cs rest up)
unfolding walk first_at first
walk-found fuel e cs rest up t = ground arith

walk-next :
    (fuel : ℕ) (e : Element) (cs rest : Nodes) (up : List Nodes)
    → is_target e ≡ false
    → walk (suc fuel) (at e cs rest up) ≡ walk fuel (advance e cs rest up)
unfolding walk
walk-next fuel e cs rest up t = ground arith

walk-first_at : (fuel : ℕ) (c : Cursor) → size_at c < fuel → walk fuel c ≡ first_at c
walk-first_at zero c h = absurd (omega arith)
walk-first_at (suc fuel) done h = unfold walk first_at in refl
walk-first_at (suc fuel) (at e cs rest up) h = elim (Bool-cases (is_target e)) [
  | inl t ↦ walk-found fuel e cs rest up t
  | inr t ↦
      walk-next fuel e cs rest up t
      ∙ walk-first_at fuel (advance e cs rest up) (omega (arith, size_at-advance e cs rest up))
      ∙ first_at-advance e cs rest up t
]

or_else-none {ℓ} : {A : Type ℓ} (a : Option A) → or_else a none ≡ a
or_else-none none = refl
or_else-none (some a) = refl

-- FindChildElement terminates. Of the elements below the given one that it can come to, since all
-- that stand around them there are `DIV`s, it gives the first match in document order, and none if
-- none of those matches.
pub find_child_element-first_of_all :
    (children : Nodes) → find_child_element children ≡ first_of_all children
unfolding find_child_element first_up size_up
find_child_element-first_of_all children =
    walk-first_at (suc (size_all children)) (climb (children ∷ []))
      (omega (arith, size_at-climb (children ∷ [])))
    ∙ first_at-climb (children ∷ [])
    ∙ or_else-none (first_of_all children)
