-- ===== src/SearchData/Index.antt =====
-- How the entries of a section lie on its pages: by the characters of indexSectionsWithContent.
use fiberio.Base.{
  Bool-cases, inl, inr, ℕ, zero, suc, ◌+◌, ◌≡◌, ◌≢◌, refl, Bool, true, false, not, ◌&&◌, ◌||◌, List,
  [], ◌∷◌, ◌++◌, map, some, ltb, leb, ◌==◌, if◌then◌else◌, Text, codes, text_eq, eq_of_text_eq,
  starts_with, get_elem?, count_if, arith, ◌∙◌,
}
use fiberio.SearchId.{convert_to_id, convert_unit, is_kept, to_hex, hex_digit}
use fiberio.SearchResults.Create.{Entry}
use fiberio.SearchBox.Start.{index_sections_with_content}
use fiberio.SearchData.{section_pages}

abbrev pub is_ascii : Text → Bool
is_ascii [] = true
is_ascii (c ∷ s) = ltb c 128 && is_ascii s

-- What `toLowerCase` makes of ASCII.
abbrev lower_unit : ℕ → ℕ
lower_unit c = if leb b'A' c && leb c b'Z' then c + 32 else c

abbrev pub ascii_lower : Text → Text
ascii_lower s = map lower_unit s

abbrev pub name_of : Entry → Text
name_of e = ascii_lower e.name

abbrev pub names : List Entry → List Text
names es = map name_of es

abbrev pub all_names : List (List Entry) → List Text
all_names [] = []
all_names (p ∷ ps) = names p ++ all_names ps

-- The namespace `fiberio::detail`, which is filed by its qualified name.
abbrev pub astray : Text
astray = codes "detail"

-- The entry's identifier is that of its name, which begins with `c`, but for one entry.
abbrev in_page : ℕ → Entry → Bool
in_page c e =
    is_ascii e.id
    && (is_ascii e.name
        && (text_eq (ascii_lower e.id) (convert_to_id (name_of e))
            && (starts_with (c ∷ []) (name_of e) || text_eq (name_of e) astray)))

unfoldable pub page_ok : ℕ → List Entry → Bool
page_ok c [] = true
page_ok c (e ∷ es) = in_page c e && page_ok c es

has : ℕ → Text → Bool
has c [] = false
has c (d ∷ cs) = c == d || has c cs

-- Each page has its own character.
pub pages_ok : Text → List (List Entry) → Bool
pages_ok [] [] = true
pages_ok [] (p ∷ ps) = false
pages_ok (c ∷ cs) [] = false
pages_ok (c ∷ cs) (p ∷ ps) = page_ok c p && (not (has c cs) && pages_ok cs ps)

sections_ok : List Text → List (List (List Entry)) → Bool
sections_ok [] [] = true
sections_ok [] (s ∷ ss) = false
sections_ok (c ∷ cs) [] = false
sections_ok (c ∷ cs) (s ∷ ss) = pages_ok c s && sections_ok cs ss

tables-ok : sections_ok index_sections_with_content section_pages ≡ true
unfolding sections_ok pages_ok page_ok has text_eq starts_with convert_to_id convert_unit is_kept
    to_hex hex_digit
tables-ok = refl

section-ok :
    (cs : List Text) (ss : List (List (List Entry))) (i : ℕ) (content : Text)
    (pages : List (List Entry))
    → sections_ok cs ss ≡ true
    → get_elem? cs i ≡ some content
    → get_elem? ss i ≡ some pages
    → pages_ok content pages ≡ true
unfolding sections_ok
section-ok [] ss i content pages h e k = absurd (cc e)
section-ok (c ∷ cs) [] i content pages h e k = absurd (cc k)
section-ok (c ∷ cs) (s ∷ ss) zero content pages h e k = ground arith
section-ok (c ∷ cs) (s ∷ ss) (suc i) content pages h e k =
    section-ok cs ss i content pages (ground arith) e k

pub pages-ok :
    (i : ℕ) (content : Text) (pages : List (List Entry))
    → get_elem? index_sections_with_content i ≡ some content
    → get_elem? section_pages i ≡ some pages
    → pages_ok content pages ≡ true
pages-ok i content pages e k =
    section-ok index_sections_with_content section_pages i content pages tables-ok e k

-- What the names are that begin with a text.
starts_with-head :
    (c d : ℕ) (r n : Text)
    → starts_with (d ∷ []) n ≡ true
    → (c == d) ≡ false
    → starts_with (c ∷ r) n ≡ false
unfolding starts_with
starts_with-head c d r [] h e = refl
starts_with-head c d r (x ∷ n) h e = ground arith

count_if-miss :
    (p : Text → Bool) (x : Text) (xs : List Text)
    → p x ≡ false
    → count_if p (x ∷ xs) ≡ count_if p xs
count_if-miss p x xs h = rw (h, count_if) refl

module _ (c : ℕ) (r : Text) (h : starts_with (c ∷ r) astray ≡ false) where
  abbrev matches : List Text → ℕ
  matches ns = count_if (starts_with (c ∷ r)) ns

  matches-append : (xs ys : List Text) → matches (xs ++ ys) ≡ matches xs + matches ys
  matches-append [] ys = omega arith
  matches-append (x ∷ xs) ys = ground (arith, matches-append xs ys)

  in_page-other :
      (d : ℕ) (e : Entry)
      → in_page d e ≡ true
      → (c == d) ≡ false
      → starts_with (c ∷ r) (name_of e) ≡ false
  in_page-other d e o n = elim (Bool-cases (text_eq (name_of e) astray)) [
    | inl s ↦ rw (eq_of_text_eq (name_of e) astray s) h
    | inr s ↦ starts_with-head c d r (name_of e) (ground arith) n
  ]

  page-other :
      (d : ℕ) (es : List Entry) → page_ok d es ≡ true → (c == d) ≡ false → matches (names es) ≡ 0
  unfolding page_ok
  page-other d [] o n = refl
  page-other d (e ∷ es) o n =
      count_if-miss (starts_with (c ∷ r)) (name_of e) (names es)
        (in_page-other d e (ground arith) n)
      ∙ page-other d es (ground arith) n

  pages-other :
      (cs : Text) (ps : List (List Entry))
      → pages_ok cs ps ≡ true
      → has c cs ≡ false
      → matches (all_names ps) ≡ 0
  unfolding pages_ok has
  pages-other [] [] o n = refl
  pages-other [] (p ∷ ps) o n = absurd (cc o)
  pages-other (d ∷ cs) [] o n = absurd (cc o)
  pages-other (d ∷ cs) (p ∷ ps) o n = omega (
    arith,
    matches-append (names p) (all_names ps),
    page-other d p (ground arith) (ground arith),
    pages-other cs ps (ground arith) (ground arith),
  )

  has-get_elem? : (cs : Text) (k : ℕ) → get_elem? cs k ≡ some c → has c cs ≡ true
  unfolding has
  has-get_elem? [] k e = absurd (cc e)
  has-get_elem? (d ∷ cs) zero e = ground arith
  has-get_elem? (d ∷ cs) (suc k) e = ground (arith, has-get_elem? cs k e)

  -- The names that begin with the text lie all on the page of its first unit.
  pub page-of :
      (cs : Text) (ps : List (List Entry)) (k : ℕ)
      → pages_ok cs ps ≡ true
      → get_elem? cs k ≡ some c
      → (es : List Entry) × (get_elem? ps k ≡ some es)
        × (page_ok c es ≡ true)
        × (matches (names es) ≡ matches (all_names ps))
  unfolding pages_ok has
  page-of [] ps k o e = absurd (cc e)
  page-of (d ∷ cs) [] k o e = absurd (cc o)
  page-of (d ∷ cs) (p ∷ ps) zero o e = (
    p,
    refl,
    ground arith,
    omega (
      arith,
      matches-append (names p) (all_names ps),
      pages-other cs ps (ground arith) (ground arith),
    ),
  )
  page-of (d ∷ cs) (p ∷ ps) (suc k) o e =
      let (es, at, ok, same) = page-of cs ps k (ground arith) e in
      (
        es,
        at,
        ok,
        omega (
          arith,
          same,
          matches-append (names p) (all_names ps),
          page-other d p (ground arith) (ground (arith, has-get_elem? cs k e)),
        ),
      )

  absent : (cs : Text) → ((k : ℕ) → get_elem? cs k ≢ some c) → has c cs ≡ false
  unfolding has
  absent [] n = refl
  absent (d ∷ cs) n = ground (arith, n 0, absent cs (λ k. n (suc k)))

  pub no_page-of :
      (cs : Text) (ps : List (List Entry))
      → pages_ok cs ps ≡ true
      → ((k : ℕ) → get_elem? cs k ≢ some c)
      → matches (all_names ps) ≡ 0
  no_page-of cs ps o n = pages-other cs ps o (absent cs n)
