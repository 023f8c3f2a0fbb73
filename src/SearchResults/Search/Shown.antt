-- ===== src/SearchResults/Search/Shown.antt =====
-- What a search shows: the rows whose name begins with the search text, and how many.
use fiberio.Base.{
  ℕ, ◌+◌, ◌≡◌, refl, Bool, ◌&&◌, List, [], ◌∷◌, ◌++◌, map, arith, ◌==◌, if◌then◌else◌, Text, codes,
  text_eq, starts_with, starts_with-take, text_eq_refl, count_if, Bool-cases, inl, inr, ap,
}
use fiberio.SearchId.{convert_to_id}
use fiberio.SearchId.Prefix.{Units, starts_with-convert_to_id}
use fiberio.SearchResults.{hidden, block, is_block, Row, Page, SearchResults}
use fiberio.SearchResults.Search.{
  strip_leading, strip_trailing, strip_row_prefix, result_class, search_text, search_key,
  row_matches, show_row, show_rows, search_page,
}

-- A row is a result that is shown.
abbrev pub is_hit : Row → Bool
is_hit row = text_eq row.class_name result_class && is_block row.display

count_if-step :
    (p : Row → Bool) (row : Row) (rows : List Row) (n : ℕ)
    → (if p row then n + 1 else n) + count_if p rows ≡ n + count_if p (row ∷ rows)
count_if-step p row rows n = elim (Bool-cases (p row)) [
  | inl e ↦ rw (e, count_if) (omega arith)
  | inr e ↦ rw (e, count_if) refl
]

-- The row as a search for `key` leaves it.
abbrev pub shown : (Text → Text) → Text → Row → Row
shown lower key row =
    if text_eq row.class_name result_class
    then record row {
      display = if starts_with key (strip_row_prefix (lower row.id)) then block else hidden;
    }
    else row

module _ (lower : Text → Text) where
  row_matches-starts_with :
      (key : Text) (row : Row)
      → row_matches lower key row ≡ starts_with key (strip_row_prefix (lower row.id))
  unfolding row_matches
  row_matches-starts_with key row = starts_with-take key (strip_row_prefix (lower row.id))

  show_row_lem :
      (key : Text) (row : Row) (n : ℕ)
      → (show_row lower key row n
          ≡ ((if is_hit (shown lower key row) then n + 1 else n), shown lower key row))
  unfolding show_row
  show_row_lem key row n = rw (row_matches-starts_with key row) (ground arith)

  pub show_rows_lem :
      (key : Text) (rows : List Row) (n : ℕ)
      → show_rows lower key rows n
        ≡ (n + count_if is_hit (map (shown lower key) rows), map (shown lower key) rows)
  unfolding show_rows
  show_rows_lem key [] n = ground arith
  show_rows_lem key (row ∷ rows) n =
      rw (show_row_lem key row n, show_rows_lem key rows _)
        (ap (λ (k : ℕ). (k, map (shown lower key) (row ∷ rows)))
          (count_if-step is_hit (shown lower key row) _ n))

  -- After a search each row of class `SRResult` is shown or hidden by whether the key begins its
  -- name, and no other row is touched; the match count is the number of rows shown, and `NoMatches`
  -- is shown exactly if there are none.
  pub search_page_lem :
      (unescape : Text → Text) (location search : Text) (this : SearchResults) (page : Page)
      → let key = search_key lower (search_text unescape location search) in
        let (this', page') = search_page lower unescape location search this page in
        (page'.rows ≡ map (shown lower key) page.rows)
        × (this'.last_match_count ≡ count_if is_hit page'.rows)
        × (is_block page'.no_matches ≡ (count_if is_hit page'.rows == 0))
        × (page'.searching ≡ hidden)
  unfolding search_page
  search_page_lem unescape location search this page =
      ground
        (arith, show_rows_lem (search_key lower (search_text unescape location search)) page.rows 0)

  -- A result row whose identifier in lower case is `sr_` and the identifier of `name` is left shown
  -- exactly if the search text, trimmed and in lower case, begins `name`.
  pub search-name :
      (search name : Text) (row : Row)
      → row.class_name ≡ result_class
      → lower row.id ≡ codes "sr_" ++ convert_to_id name
      → Units (lower (strip_trailing (strip_leading search)))
      → Units name
      → shown lower (search_key lower search) row ≡ record row {
        display =
            if starts_with (lower (strip_trailing (strip_leading search))) name
            then block
            else hidden;
      }
  unfolding search_key strip_row_prefix
  search-name search name row c i u v =
      rw
        (
          c,
          text_eq_refl result_class,
          i,
          starts_with-convert_to_id (lower (strip_trailing (strip_leading search))) name u v,
        )
        refl
