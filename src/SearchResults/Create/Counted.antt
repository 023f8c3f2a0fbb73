-- ===== src/SearchResults/Create/Counted.antt =====
-- The results page from its data to the number of matches.
use fiberio.Base.{
  suc, ◌≡◌, refl, Bool, List, [], ◌∷◌, ◌++◌, map, arith, Text, codes, text_eq_refl, starts_with,
  count_if, ap, ◌∙◌, ◌==◌, Bool-cases, inl, inr,
}
use fiberio.SearchId.{convert_to_id}
use fiberio.SearchId.Prefix.{Units}
use fiberio.SearchResults.{hidden, is_block, Page, SearchResults}
use fiberio.SearchResults.Search.{
  strip_leading, strip_trailing, search_text, search_key, search_page, result_class,
}
use fiberio.SearchResults.Search.Shown.{is_hit, shown, search_page_lem, search-name}
use fiberio.SearchResults.Create.{Entry, create_row, create_results}

count_if-cons {ℓ κ} :
    {A : Type ℓ} {B : Type κ} (p : A → Bool) (q : B → Bool) (x : A) (y : B) (xs : List A)
    (ys : List B)
    → p x ≡ q y
    → count_if p xs ≡ count_if q ys
    → count_if p (x ∷ xs) ≡ count_if q (y ∷ ys)
count_if-cons p q x y xs ys h k = elim (Bool-cases (q y)) [
  | inl e ↦ rw (h ∙ e, e, count_if) (ap suc k)
  | inr e ↦ rw (h ∙ e, e, count_if) k
]

module _ (lower : Text → Text) where
  -- The entries stand for the names: the identifier of each is that of its name, whatever its case.
  abbrev pub Named : List Entry → List Text → Type 0
  Named [] [] = Unit {0}
  Named (e ∷ es) (n ∷ ns) =
      Units n × (lower (codes "SR_" ++ e.id) ≡ codes "sr_" ++ convert_to_id n) × Named es ns
  Named _ _ = ⊥

  abbrev pub trimmed : Text → Text
  trimmed search = lower (strip_trailing (strip_leading search))

  is_hit-create_row :
      (search name : Text) (e : Entry)
      → Units (trimmed search)
      → Units name
      → lower (codes "SR_" ++ e.id) ≡ codes "sr_" ++ convert_to_id name
      → is_hit (shown lower (search_key lower search) (create_row e))
        ≡ starts_with (trimmed search) name
  unfolding create_row
  is_hit-create_row search name e u v h =
      rw (search-name lower search name (create_row e) refl h u v)
        (rw (text_eq_refl result_class) (ground arith))

  count_if-create_results :
      (search : Text) (es : List Entry) (ns : List Text)
      → Units (trimmed search)
      → Named es ns
      → count_if is_hit (map (shown lower (search_key lower search)) (create_results es))
        ≡ count_if (starts_with (trimmed search)) ns
  unfolding create_results
  count_if-create_results search [] [] u h = refl
  count_if-create_results search [] (n ∷ ns) u h = absurd h
  count_if-create_results search (e ∷ es) [] u h = absurd h
  count_if-create_results search (e ∷ es) (n ∷ ns) u h =
      count_if-cons is_hit (starts_with (trimmed search))
        (shown lower (search_key lower search) (create_row e)) n _ ns
        (is_hit-create_row search n e u h.0 h.1) (count_if-create_results search es ns u h.2)

  -- On a page that createResults has built from entries whose identifiers stand for `ns`, the match
  -- count after a search is the number of these names that the search text, trimmed and in lower
  -- case, begins.
  pub match_count-create_results :
      (unescape : Text → Text) (location search : Text) (this : SearchResults) (page : Page)
      (es : List Entry) (ns : List Text)
      → page.rows ≡ create_results es
      → Named es ns
      → Units (trimmed (search_text unescape location search))
      → (search_page lower unescape location search this page).0.last_match_count
        ≡ count_if (starts_with (trimmed (search_text unescape location search))) ns
  match_count-create_results unescape location search this page es ns r h u =
      found.1
      ∙ ap (count_if is_hit) (found.0 ∙ ap (map (shown lower (search_key lower text))) r)
      ∙ count_if-create_results text es ns u h
    where
      text : Text
      text = search_text unescape location search

      found :
          let key = search_key lower text in
          let (this', page') = search_page lower unescape location search this page in
          (page'.rows ≡ map (shown lower key) page.rows)
          × (this'.last_match_count ≡ count_if is_hit page'.rows)
          × (is_block page'.no_matches ≡ (count_if is_hit page'.rows == 0))
          × (page'.searching ≡ hidden)
      found = search_page_lem lower unescape location search this page
