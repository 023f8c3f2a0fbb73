-- ===== src/Menu/RoundTrip.antt =====
-- A reader of the HTML that docs/html/menu.js makes.
use fiberio.Base.{
  ℕ, zero, suc, ◌+◌, ◌≤◌, ◌≡◌, refl, Bool, false, [], ◌∷◌, ◌++◌, Option, none, some, ◌==◌,
  if◌then◌else◌, Text, codes, arith,
}
use mathlib.Core.List.{append_assoc, append-nil}
use fiberio.Menu.{Menu, Items, leaf, tree, nil, item, make_tree, make_items, init_menu}

-- What follows a text that is expected.
unfoldable pub strip : Text → Text → Option Text
strip [] s = some s
strip (c ∷ p) [] = none
strip (c ∷ p) (d ∷ s) = let rest = strip p s in if c == d then rest else none

-- Up to the unit `q`, which is not taken.
unfoldable pub until : ℕ → Text → Text × Text
until q [] = ([], [])
until q (c ∷ s) = let (a, b) = until q s in if c == q then ([], c ∷ s) else (c ∷ a, b)

infixl 5 ◌>>=◌
abbrev ◌>>=◌ {ℓ κ} : {A : Type ℓ} {B : Type κ} → Option A → (A → Option B) → Option B
none >>= f = none
some a >>= f = f a

module _ (rel_path : Text) where
  -- A reader of menus; `none` is what is no menu, or the end of the fuel.
  mutual
    pub read_menu : ℕ → Text → Option (Menu × Text)
    read_menu zero s = none
    read_menu (suc fuel) s = elim (strip (codes "<ul>") s) [
      | none ↦ some (leaf, s)
      | some r ↦ do (xs, r) ← read_items fuel r; some (tree xs, r)
    ]

    pub read_items : ℕ → Text → Option (Items × Text)
    read_items zero s = none
    read_items (suc fuel) s = elim (strip (codes "</ul>") s) [
      | some r ↦ some (nil, r)
      | none ↦ do
        r ← strip (codes "<li><a href=\"") s
        r ← strip rel_path r
        let (url, r) = until b'"' r
        r ← strip (codes "\">") r
        let (text, r) = until b'<' r
        r ← strip (codes "</a>") r
        (below, r) ← read_menu fuel r
        r ← strip (codes "</li>") r
        (xs, r) ← read_items fuel r
        some (item text url below xs, r)
    ]

-- The texts and urls do not hold the units that end them in the HTML.
abbrev pub Without : ℕ → Text → Type 0
Without q [] = Unit
Without q (c ∷ s) = ((c == q) ≡ false) × Without q s

unfoldable mutual
  pub Plain : Menu → Type 0
  Plain leaf = Unit
  Plain (tree xs) = PlainItems xs

  pub PlainItems : Items → Type 0
  PlainItems nil = Unit
  PlainItems (item text url below xs) =
      Without b'<' text × Without b'"' url × Plain below × PlainItems xs

mutual
  pub size : Menu → ℕ
  size leaf = 1
  size (tree xs) = suc (size_items xs)

  pub size_items : Items → ℕ
  size_items nil = 1
  size_items (item text url below xs) = suc (size below + size_items xs)

strip-append : (p s : Text) → strip p (p ++ s) ≡ some s
unfolding strip
strip-append [] s = refl
strip-append (c ∷ p) s = ground (arith, strip-append p s)

until-append : (q : ℕ) (t s : Text) → Without q t → until q (t ++ q ∷ s) ≡ (t, q ∷ s)
unfolding until
until-append q [] s h = ground arith
until-append q (c ∷ t) s h = rw (h.0, until-append q t s h.1) refl

module _ (rel_path : Text) where
  -- With fuel for the menu, the reader takes it off the front of a text.
  mutual
    unfolding read_menu read_items make_tree make_items Plain size strip

    read_menu-make_tree :
        (m : Menu) (f : ℕ) (s : Text)
        → size m ≤ f
        → Plain m
        → strip (codes "<ul>") s ≡ none
        → read_menu rel_path f (make_tree rel_path m ++ s) ≡ some (m, s)
    read_menu-make_tree leaf zero s h p e = absurd (omega arith)
    read_menu-make_tree (tree xs) zero s h p e = absurd (omega arith)
    read_menu-make_tree leaf (suc f) s h p e = ground arith
    read_menu-make_tree (tree xs) (suc f) s h p e =
        simp (append_assoc, read_items-make_items xs f s (omega arith) p)

    read_items-make_items :
        (xs : Items) (f : ℕ) (s : Text)
        → size_items xs ≤ f
        → PlainItems xs
        → read_items rel_path f (make_items rel_path xs ++ (codes "</ul>" ++ s)) ≡ some (xs, s)
    read_items-make_items nil zero s h p = absurd (omega arith)
    read_items-make_items (item text url below xs) zero s h p = absurd (omega arith)
    read_items-make_items nil (suc f) s h p = refl
    read_items-make_items (item text url below xs) (suc f) s h p = simp (
      append_assoc,
      strip-append,
      λ (r : Text). until-append b'"' url r p.1,
      λ (r : Text). until-append b'<' text r p.0,
      λ (r : Text) (e : strip (codes "<ul>") r ≡ none).
          read_menu-make_tree below f r (omega arith) p.2 e,
      read_items-make_items xs f s (omega arith) p.3,
    )

-- The HTML that `initMenu` appends to the page can be read back, with fuel for the size of the
-- menu, into the menu that it was made from, where no text holds `<` and no url a quotation mark.
pub read_menu-init_menu :
    (rel_path : Text) (search_enabled server_side : Bool) (search_page search_text : Text)
    (m : Menu)
    → Plain m
    → read_menu rel_path
        (size m)
        (init_menu rel_path search_enabled server_side search_page search_text m).html
      ≡ some (m, [])
unfolding init_menu strip
read_menu-init_menu rel_path search_enabled server_side search_page search_text m p =
    rw append-nil at (read_menu-make_tree rel_path m (size m) [] (omega arith) p refl)
