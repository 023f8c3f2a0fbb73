-- ===== src/SearchBox/Selection.antt =====
-- The filter menu: which entry is marked, and how far the arrow keys go.
use fiberio.Base.{
  ℕ, zero, suc, ◌+◌, ◌≡◌, refl, Bool, true, false, not, ◌&&◌, List, [], ◌∷◌, none, ltb, ◌==◌,
  if◌then◌else◌, text_eq, arith, get_elem?, if_true, ◌∙◌,
}
use fiberio.SearchBox.{SearchBox, SelectChild, Site, throws}
use fiberio.SearchBox.Geometry.{Layout}
use fiberio.SearchBox.Actions.{select_item_count, select_item_set, search}
use fiberio.SearchBox.Events.{KeyPress, strip_spaces, on_select_item, on_search_select_key}

-- The marks of the entries of the menu, other child nodes left out.
abbrev pub marks : List SelectChild → List Bool
marks [] = []
marks (c ∷ cs) = if c.is_item then c.marked ∷ marks cs else marks cs

-- One mark for each of `n` entries from number `j` on, at `id` alone.
abbrev pub mark_only : ℕ → ℕ → ℕ → List Bool
mark_only id j zero = []
mark_only id j (suc n) = (j == id) ∷ mark_only id (suc j) n

-- SelectItemSet marks the entry with the given number, counted from `j` on, and no other, and keeps
-- their count.
pub marks-select_item_set :
    (id j : ℕ) (cs : List SelectChild)
    → (marks (select_item_set id j cs) ≡ mark_only id j (select_item_count cs))
      × (select_item_count (select_item_set id j cs) ≡ select_item_count cs)
unfolding select_item_set select_item_count
marks-select_item_set id j [] = (refl, refl)
marks-select_item_set id j (c ∷ cs) =
    ground (arith, marks-select_item_set id j cs, marks-select_item_set id (suc j) cs)

abbrev down_key : KeyPress
down_key = record { key_code = 40; shift_key = false }

search-throws :
    (site : Site) (l : Layout) (s : SearchBox)
    → get_elem? site.sections_with_content s.search_index ≡ none
    → search site l s ≡ throws (record s { key_timeout = 0 })
unfolding search
search-throws site l s n = rw (n, search) refl

on_select_item-searches :
    (site : Site) (l : Layout) (id : ℕ) (s : SearchBox)
    → s.search_active ≡ true
    → text_eq (strip_spaces s.field_value) [] ≡ false
    → on_select_item site l id s
      ≡ search site l
          (record s { search_index = id; select_children = select_item_set id 0 s.select_children })
unfolding on_select_item
on_select_item-searches site l id s a t = if_true _ _ both
  where
    both : (not (text_eq (strip_spaces s.field_value) []) && s.search_active) ≡ true
    both = ground arith

-- What the exception leaves: an index past the last section, and no entry marked.
abbrev past_end : SearchBox → SearchBox
past_end s = record s {
  search_index = s.search_index + 1;
  select_children = select_item_set (s.search_index + 1) 0 s.select_children;
  key_timeout = 0;
}

-- Down on the last entry of the filter menu, where no section has the next number, goes one past
-- the sections: with an active, non-blank search the code throws there, and keeps the index that
-- has no section.
select_key-past_end :
    (site : Site) (l : Layout) (s : SearchBox)
    → s.search_index + 1 ≡ select_item_count s.select_children
    → get_elem? site.sections_with_content (s.search_index + 1) ≡ none
    → s.search_active ≡ true
    → text_eq (strip_spaces s.field_value) [] ≡ false
    → on_search_select_key site l down_key s ≡ throws (past_end s)
unfolding on_search_select_key
select_key-past_end site l s e n a t =
    if_true _ _ inside
    ∙ on_select_item-searches site l (s.search_index + 1)
        (record s { search_index = s.search_index + 1 }) a t
    ∙ search-throws site l _ n
  where
    inside :
        (down_key.key_code == 40 && ltb s.search_index (select_item_count s.select_children)) ≡ true
    inside = ground arith
