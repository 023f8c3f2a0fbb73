-- ===== src/SearchBox/Pages.antt =====
-- Which results page a search opens.
use fiberio.Base.{
  ℕ, zero, suc, ◌+◌, ◌<◌, ◌≡◌, ◌≢◌, [], ◌∷◌, ◌++◌, Option, none, some, ◌==◌, Text, text_eq, codes,
  arith, Bool-cases, inl, inr, Option-cases, get_elem?, ◌⊎◌, starts_with,
}
use fiberio.SearchId.{to_hex}
use fiberio.SearchResults.Search.{strip_leading}
use fiberio.SearchBox.{SearchBox, Site, state_of}
use fiberio.SearchBox.Geometry.{Layout}
use fiberio.SearchBox.Actions.{index_of, index_char, section_name, results_page, search}

-- `i` is the first position of `c` in a text, counted from `base`; or there is none.
abbrev pub IsIndex : ℕ → Text → ℕ → Option ℕ → Type 0
IsIndex c s base none = (k : ℕ) → get_elem? s k ≢ some c
IsIndex c s base (some i) =
    (k : ℕ) × (i ≡ base + k) × (get_elem? s k ≡ some c) × ((j : ℕ) → j < k → get_elem? s j ≢ some c)

IsIndex-suc :
    (c d base : ℕ) (s : Text) (o : Option ℕ)
    → c ≢ d
    → IsIndex c s (suc base) o
    → IsIndex c (d ∷ s) base o
IsIndex-suc c d base s none n h = λ k. no_at k
  where
    no_at : (k : ℕ) → get_elem? (d ∷ s) k ≢ some c
    no_at zero = λ e. n (ground arith)
    no_at (suc k) = h k
IsIndex-suc c d base s (some i) n h = (suc h.0, omega (arith, h.1), h.2, no_before)
  where
    no_before : (j : ℕ) → j < suc h.0 → get_elem? (d ∷ s) j ≢ some c
    no_before zero p = λ e. n (ground arith)
    no_before (suc j) p = h.3 j (omega arith)

starts_with-unit : (c d : ℕ) (s : Text) → starts_with (c ∷ []) (d ∷ s) ≡ (c == d)
unfolding starts_with
starts_with-unit c d s = ground arith

index_of-unit : (c base : ℕ) (s : Text) → IsIndex c s base (index_of (c ∷ []) base s)
unfolding index_of text_eq
index_of-unit c base [] = λ k e. ground arith
index_of-unit c base (d ∷ s) = elim (Bool-cases (c == d)) [
  | inl e ↦
      rw (starts_with-unit c d s, e) (0, omega arith, ground arith, λ j p. absurd (omega arith))
  | inr e ↦
      rw (starts_with-unit c d s, e)
        (IsIndex-suc c d base s _ (ground arith) (index_of-unit c (suc base) s))
]

-- The page of the section for position `i`.
abbrev pub page_at : Site → SearchBox → ℕ → Text
page_at site s i =
    s.results_path
    ++ (codes "/"
        ++ (section_name site s.search_index ++ (codes "_" ++ (to_hex i ++ codes ".html"))))

-- Whether the popup was open or not, Search with an existing section and a one-unit index character
-- opens the results page whose number is the first position of that character among the section's,
-- with the search text as its query; if the section has no such character, the page of no matches.
pub search-page :
    (site : Site) (l : Layout) (s : SearchBox) (c : ℕ) (content : Text)
    → get_elem? site.sections_with_content s.search_index ≡ some content
    → index_char site (strip_leading s.field_value) ≡ c ∷ []
    → let s' = state_of (search site l s) in
      ((i : ℕ) × IsIndex c content 0 (some i)
        × (s'.last_results_page ≡ page_at site s i)
        × (s'.frame_location
            ≡ page_at site s i ++ (codes "?" ++ site.escape (strip_leading s.field_value))))
      ⊎ (((k : ℕ) → get_elem? content k ≢ some c)
          × (s'.frame_location ≡ s.results_path ++ codes "/nomatches.html"))
unfolding search results_page
search-page site l s c content e h = elim (Option-cases (index_of (c ∷ []) 0 content)) [
  | inl o ↦ inr ((rw o at (index_of-unit c 0 content)), ground arith)
  | inr (i, o) ↦ inl (i, (rw o at (index_of-unit c 0 content)), ground arith, ground arith)
]
