-- ===== src/SearchData/Complete.antt =====
-- A search of this documentation, from the search box to the results page.
use fiberio.Base.{
  refl, ℕ, ◌≡◌, ◌⊎◌, Bool, true, false, List, [], ◌∷◌, ◌++◌, some, Text, codes, eq_of_text_eq,
  starts_with, get_elem?, count_if, arith, ap, ◌∙◌, inl, inr,
}
use fiberio.SearchId.{convert_to_id}
use fiberio.SearchId.Prefix.{Units}
use fiberio.SearchResults.{Page, SearchResults}
use fiberio.SearchResults.Search.{search_text, search_page}
use fiberio.SearchResults.Create.{Entry, create_results}
use fiberio.SearchResults.Create.Counted.{Named, trimmed, match_count-create_results}
use fiberio.SearchBox.{SearchBox, Site, state_of}
use fiberio.SearchBox.Geometry.{Layout}
use fiberio.SearchBox.Actions.{index_char, search}
use fiberio.SearchBox.Pages.{page_at, search-page}
use fiberio.SearchBox.Start.{index_sections_with_content, index_section_names}
use fiberio.SearchResults.Search.{strip_leading}
use fiberio.SearchData.{section_pages}
use fiberio.SearchData.Index.{
  is_ascii, ascii_lower, name_of, names, all_names, astray, page_ok, pages-ok, page-of, no_page-of,
}

ascii_lower-Units : (s : Text) → is_ascii s ≡ true → Units (ascii_lower s)
ascii_lower-Units [] h = tt
ascii_lower-Units (c ∷ s) h = (ground arith, ascii_lower-Units s (ground arith))

module _ (lower : Text → Text)
    (is_lower : (t : Text) → is_ascii t ≡ true → lower t ≡ ascii_lower t) where
  -- The entries of a page stand for their names in lower case.
  page-Named : (c : ℕ) (es : List Entry) → page_ok c es ≡ true → Named lower es (names es)
  unfolding page_ok
  page-Named c [] h = tt
  page-Named c (e ∷ es) h = (
    ascii_lower-Units e.name (ground arith),
    is_lower (codes "SR_" ++ e.id) (ground arith)
        ∙ ap (λ (t : Text). codes "sr_" ++ t)
            (eq_of_text_eq (ascii_lower e.id) (convert_to_id (name_of e)) (ground arith)),
    page-Named c es (ground arith),
  )

  -- On the page of a section's index character that createResults has built from its data, the
  -- match count after a search for a text that begins with the character, once it is trimmed and in
  -- lower case, is the number of names in the whole section that it begins, unless it begins
  -- `detail`. toLowerCase is taken to turn A to Z in ASCII texts to a to z, and nothing else of
  -- them.
  match_count-section :
      (unescape : Text → Text) (location text : Text) (this : SearchResults) (page : Page)
      (i k c : ℕ) (r content : Text) (pages : List (List Entry)) (es : List Entry)
      → get_elem? index_sections_with_content i ≡ some content
      → get_elem? section_pages i ≡ some pages
      → get_elem? content k ≡ some c
      → get_elem? pages k ≡ some es
      → page.rows ≡ create_results es
      → trimmed lower (search_text unescape location text) ≡ c ∷ r
      → Units (c ∷ r)
      → starts_with (c ∷ r) astray ≡ false
      → (search_page lower unescape location text this page).0.last_match_count
        ≡ count_if (starts_with (c ∷ r)) (all_names pages)
  match_count-section unescape location text this page i k c r content pages es ei ep ek es_at rows
        t u h =
      let (fs, at, ok, same) = page-of c r h content pages k (pages-ok i content pages ei ep) ek in
      let found : es ≡ fs = cc (es_at, at) in
      match_count-create_results lower unescape location text this page es (names es) rows
        (rw found (page-Named c fs ok)) (rw t u)
      ∙ (rw (t, found) same)

module _ (lower escape : Text → Text) (exceeds_one : Text → Bool) where
  -- The search box of these pages.
  abbrev pub site : Site
  site = record {
    sections_with_content = index_sections_with_content;
    section_names = index_section_names;
    to_lower_case = lower;
    escape = escape;
    exceeds_one = exceeds_one;
  }

-- From the search box to the matches of the page in its frame.
module _ (lower escape unescape : Text → Text) (exceeds_one : Text → Bool)
    (is_lower : (t : Text) → is_ascii t ≡ true → lower t ≡ ascii_lower t)
    (unescape-escape : (t : Text) → Units t → unescape (escape t) ≡ t) where
  abbrev docs : Site
  docs = site lower escape exceeds_one

  -- What the results page reads from its address.
  search_text-location : (v : Text) → Units v → search_text unescape (codes "?" ++ escape v) [] ≡ v
  unfolding search_text
  search_text-location v u = unescape-escape v u

  -- The search of this documentation is complete, from the panel to the results page: Search in an
  -- existing section, where the index character is the first unit of the text once it is trimmed
  -- and in lower case, opens a page with the text in its address, and once createResults has built
  -- that page from its data, its match count after a search is the number of names in the whole
  -- section that the trimmed lower-case text begins; or it opens the page of no matches, and there
  -- are none. The one name `detail` is out of this: the text does not begin it. unescape is taken
  -- to undo escape, and toLowerCase to turn A to Z in ASCII texts to a to z and nothing else.
  pub search-matches :
      (l : Layout) (s : SearchBox) (c : ℕ) (r content : Text) (pages : List (List Entry))
      → let v = strip_leading s.field_value in
        get_elem? index_sections_with_content s.search_index ≡ some content
        → get_elem? section_pages s.search_index ≡ some pages
        → index_char docs v ≡ c ∷ []
        → trimmed lower v ≡ c ∷ r
        → Units v
        → Units (c ∷ r)
        → starts_with (c ∷ r) astray ≡ false
        → let found = count_if (starts_with (c ∷ r)) (all_names pages) in
          let s' = state_of (search docs l s) in
          ((k : ℕ) × (es : List Entry) × (get_elem? pages k ≡ some es)
            × (s'.frame_location ≡ page_at docs s k ++ (codes "?" ++ escape v))
            × ((this : SearchResults) (page : Page)
                → (search_page lower unescape
                    (codes "?" ++ escape v)
                    []
                    this
                    (record page { rows = create_results es })).0.last_match_count
                  ≡ found))
          ⊎ ((s'.frame_location ≡ s.results_path ++ codes "/nomatches.html") × (found ≡ 0))
  search-matches l s c r content pages ei ep ec t uv u h =
      elim (search-page docs l s c content ei ec) [
        | inl (i, (k, at, here, first), opened, located) ↦
            let (es, es_at, ok, same) =
              page-of c r h content pages k (pages-ok s.search_index content pages ei ep) here in
            inl (
              k,
              es,
              es_at,
              located ∙ ap (λ i. page_at docs s i ++ (codes "?" ++ escape v)) (omega (arith, at)),
              λ this page.
                  match_count-section lower is_lower unescape (codes "?" ++ escape v) [] this
                    (record page { rows = create_results es }) s.search_index k c r content pages es
                    ei ep here es_at refl (rw (search_text-location v uv) t) u h,
            )
        | inr (n, located) ↦ inr (
          located,
          no_page-of c r h content pages (pages-ok s.search_index content pages ei ep) n,
        )
      ]
    where
      v : Text
      v = strip_leading s.field_value
