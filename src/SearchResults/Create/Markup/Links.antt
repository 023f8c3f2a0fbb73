-- ===== src/SearchResults/Create/Markup/Links.antt =====
-- The links of the results page, looked up by their ids, and its rows.
use fiberio.Base.{
  ℕ, zero, suc, ◌+◌, ◌≤◌, ◌≡◌, ◌≢◌, refl, false, List, [], ◌∷◌, ◌++◌, map, none, some,
  if◌then◌else◌, Text, text_eq, text_eq_refl, length, get_elem?, arith, ap, ◌∙◌,
}
use fiberio.SearchResults.{unset, Row}
use fiberio.SearchResults.Create.{Result, Entry, create_row, create_results}
use fiberio.SearchResults.Create.Markup.{
  Anchor, Rest, scope, children, Element, link_id, child_id, child_link, child_links, rest_of,
  symbol_link, create_element, create_elements,
}
use fiberio.SearchResults.Create.Markup.Ids.{
  link-link, child-link, link-child, child-entry, child-child,
}

-- The links of the page in the order of the document, and those of one id among them.
abbrev rest_links : Rest → List Anchor
rest_links (scope t) = []
rest_links (children links) = links

abbrev pub all_links : List Element → List Anchor
all_links [] = []
all_links (x ∷ xs) = (x.symbol ∷ rest_links x.rest) ++ all_links xs

unfoldable pub with_id : Text → List Anchor → List Anchor
with_id i [] = []
with_id i (a ∷ links) = let rest = with_id i links in if text_eq a.id i then a ∷ rest else rest

with_id-here :
    (a : Anchor) (links : List Anchor) → with_id a.id (a ∷ links) ≡ a ∷ with_id a.id links
unfolding with_id
with_id-here a links = rw (text_eq_refl a.id) refl

with_id-next :
    (i : Text) (a : Anchor) (links : List Anchor)
    → text_eq a.id i ≡ false
    → with_id i (a ∷ links) ≡ with_id i links
unfolding with_id
with_id-next i a links h = rw h refl

with_id-none : (i : Text) → with_id i [] ≡ []
unfolding with_id
with_id-none i = refl

-- Links of other ids are passed over.
with_id-child_links :
    (i : Text) (e c : ℕ) (rs : List Result) (more : List Anchor)
    → ((d : ℕ) → c ≤ d → text_eq (child_id e d) i ≡ false)
    → with_id i (child_links e c rs ++ more) ≡ with_id i more
with_id-child_links i e c [] more h = refl
with_id-child_links i e c (r ∷ rs) more h =
    with_id-next i (child_link e c r) _ (h c (omega arith))
    ∙ with_id-child_links i e (suc c) rs more (λ d l. h d (omega (arith, l)))

with_id-rest_of :
    (i : Text) (e : ℕ) (rs : List Result) (more : List Anchor)
    → ((d : ℕ) → text_eq (child_id e d) i ≡ false)
    → with_id i (rest_links (rest_of e rs) ++ more) ≡ with_id i more
with_id-rest_of i e [] more h = refl
with_id-rest_of i e (r ∷ []) more h = refl
with_id-rest_of i e (r ∷ s ∷ rs) more h = with_id-child_links i e 0 (r ∷ s ∷ rs) more (λ d l. h d)

with_id-entry :
    (e : ℕ) (i : Text) (x : Entry) (xs : List Element)
    → text_eq (link_id e) i ≡ false
    → ((d : ℕ) → text_eq (child_id e d) i ≡ false)
    → with_id i (all_links (create_element e x ∷ xs)) ≡ with_id i (all_links xs)
unfolding create_element
with_id-entry e i x xs h k =
    with_id-next i (symbol_link e x) _ h ∙ with_id-rest_of i e x.results (all_links xs) k

-- The entries from `b` on have no link of an id of an entry before them.
with_id-after :
    (i : Text) (b : ℕ) (xs : List Entry)
    → ((e : ℕ) → b ≤ e → text_eq (link_id e) i ≡ false)
    → ((e d : ℕ) → b ≤ e → text_eq (child_id e d) i ≡ false)
    → with_id i (all_links (create_elements b xs)) ≡ []
unfolding create_elements
with_id-after i b [] h k = with_id-none i
with_id-after i b (x ∷ xs) h k =
    with_id-entry b i x _ (h b (omega arith)) (λ d. k b d (omega arith))
    ∙ with_id-after i (suc b) xs (λ e l. h e (omega (arith, l))) (λ e d l. k e d (omega (arith, l)))

-- A result is found among those of its entry.
with_id-child :
    (e b c m : ℕ) (rs : List Result) (r : Result) (more : List Anchor)
    → get_elem? rs c ≡ some r
    → m ≡ b + c
    → with_id (child_id e m) (child_links e b rs ++ more)
      ≡ child_link e m r ∷ with_id (child_id e m) more
with_id-child e b c m [] r more h k = absurd (cc h)
with_id-child e b zero m (s ∷ rs) r more h k =
    rw (b_m, s_r)
      (with_id-here (child_link e m r) _
        ∙ ap (λ (l : List Anchor). child_link e m r ∷ l)
            (with_id-child_links (child_id e m) e (suc m) rs more
              (λ d l. child-child e d e m (omega (arith, l)))))
  where
    b_m : b ≡ m
    b_m = omega (arith, k)

    s_r : s ≡ r
    s_r = cc h
with_id-child e b (suc c) m (s ∷ rs) r more h k =
    with_id-next (child_id e m) (child_link e b s) _ (child-child e b e m (omega (arith, k)))
    ∙ with_id-child e (suc b) c m rs r more h (omega (arith, k))

with_id-symbol :
    (e : ℕ) (x : Entry) (xs : List Element)
    → with_id (link_id e) (all_links (create_element e x ∷ xs))
      ≡ symbol_link e x ∷ with_id (link_id e) (all_links xs)
unfolding create_element
with_id-symbol e x xs =
    with_id-here (symbol_link e x) _
    ∙ ap (λ (l : List Anchor). symbol_link e x ∷ l)
        (with_id-rest_of (link_id e) e x.results (all_links xs) (λ d. child-link e d e))

with_id-create_elements :
    (b j m : ℕ) (xs : List Entry) (x : Entry)
    → get_elem? xs j ≡ some x
    → m ≡ b + j
    → with_id (link_id m) (all_links (create_elements b xs)) ≡ symbol_link m x ∷ []
unfolding create_elements
with_id-create_elements b j m [] x h k = absurd (cc h)
with_id-create_elements b zero m (y ∷ xs) x h k =
    let same : y ≡ x = cc h in
    let at_b : b ≡ m = omega (arith, k) in
    rw (same, at_b)
      (with_id-symbol m x _
        ∙ ap (λ (l : List Anchor). symbol_link m x ∷ l)
            (with_id-after (link_id m) (suc m) xs (λ e l. link-link e m (omega (arith, l)))
              (λ e d l. child-link e d m)))
with_id-create_elements b (suc j) m (y ∷ xs) x h k =
    with_id-entry b (link_id m) y _ (link-link b m (omega (arith, k))) (λ d. child-link b d m)
    ∙ with_id-create_elements (suc b) j m xs x h (omega (arith, k))

-- A result of an entry that has several is found on the page.
with_id-rest :
    (e c : ℕ) (rs : List Result) (r : Result) (more : List Anchor)
    → get_elem? rs c ≡ some r
    → length rs ≢ 1
    → with_id (child_id e c) (rest_links (rest_of e rs) ++ more)
      ≡ child_link e c r ∷ with_id (child_id e c) more
with_id-rest e c [] r more h n = absurd (cc h)
with_id-rest e c (s ∷ []) r more h n = absurd (n refl)
with_id-rest e c (s ∷ t ∷ rs) r more h n = with_id-child e 0 c c (s ∷ t ∷ rs) r more h (omega arith)

with_id-result :
    (e c : ℕ) (x : Entry) (xs : List Element) (r : Result)
    → get_elem? x.results c ≡ some r
    → length x.results ≢ 1
    → with_id (child_id e c) (all_links (create_element e x ∷ xs))
      ≡ child_link e c r ∷ with_id (child_id e c) (all_links xs)
unfolding create_element
with_id-result e c x xs r k n =
    with_id-next (child_id e c) (symbol_link e x) _ (link-child e e c)
    ∙ with_id-rest e c x.results r (all_links xs) k n

with_id_child-create_elements :
    (b j m c : ℕ) (xs : List Entry) (x : Entry) (r : Result)
    → get_elem? xs j ≡ some x
    → m ≡ b + j
    → get_elem? x.results c ≡ some r
    → length x.results ≢ 1
    → with_id (child_id m c) (all_links (create_elements b xs)) ≡ child_link m c r ∷ []
unfolding create_elements
with_id_child-create_elements b j m c [] x r h k at n = absurd (cc h)
with_id_child-create_elements b zero m c (y ∷ xs) x r h k at n =
    let same : y ≡ x = cc h in
    let at_b : b ≡ m = omega (arith, k) in
    rw (same, at_b)
      (with_id-result m c x _ r at n
        ∙ ap (λ (l : List Anchor). child_link m c r ∷ l)
            (with_id-after (child_id m c) (suc m) xs (λ e l. link-child e m c)
              (λ e d l. child-entry e d m c (omega (arith, l)))))
with_id_child-create_elements b (suc j) m c (y ∷ xs) x r h k at n =
    with_id-entry b (child_id m c) y _ (link-child b m c)
      (λ d. child-entry b d m c (omega (arith, k)))
    ∙ with_id_child-create_elements (suc b) j m c xs x r h (omega (arith, k)) at n

-- On the page that createResults builds, the link of the `j`-th entry, with one result or with any
-- other number, is the only link with the id `Item<j>`; and where the entry does not have exactly
-- one result, the link of its `c`-th is the only one with the id `Item<j>_c<c>`.
pub with_id-create_results :
    (es : List Entry) (j : ℕ) (x : Entry)
    → get_elem? es j ≡ some x
    → let links = all_links (create_elements 0 es) in
      (with_id (link_id j) links ≡ symbol_link j x ∷ [])
      × ((c : ℕ) (r : Result)
          → get_elem? x.results c ≡ some r
          → length x.results ≢ 1
          → with_id (child_id j c) links ≡ child_link j c r ∷ [])
with_id-create_results es j x h = (
  with_id-create_elements 0 j j es x h (omega arith),
  λ c r k n. with_id_child-create_elements 0 j j c es x r h (omega arith) k n,
)

-- What the class SearchResults reads of an element.
abbrev row_of : Element → Row
row_of x = record {
  class_name = x.class_name;
  id = x.id;
  display = unset;
  children = elim x.rest [
    | scope t ↦ none
    | children links ↦ some (record { shown = unset; count = length links })
  ];
}

length-child_links : (e c : ℕ) (rs : List Result) → length (child_links e c rs) ≡ length rs
length-child_links e c [] = refl
length-child_links e c (r ∷ rs) = ap suc (length-child_links e (suc c) rs)

row_of-create_element : (e : ℕ) (x : Entry) → row_of (create_element e x) ≡ create_row x
unfolding create_element create_row
row_of-create_element e x = by_results x.results
  where
    by_results :
        (rs : List Result)
        → row_of (create_element e (record x { results = rs }))
          ≡ create_row (record x { results = rs })
    by_results [] = refl
    by_results (r ∷ []) = refl
    by_results (r ∷ s ∷ rs) = ground (arith, length-child_links e 2 rs)

-- What the class SearchResults reads of the elements that createResults builds, their class, id,
-- display and number of children, is the list of rows that the model of the class starts from.
row_of-create_elements :
    (e : ℕ) (xs : List Entry) → map row_of (create_elements e xs) ≡ create_results xs
unfolding create_elements create_results
row_of-create_elements e [] = refl
row_of-create_elements e (x ∷ xs) =
    rw (row_of-create_element e x, row_of-create_elements (suc e) xs) refl
