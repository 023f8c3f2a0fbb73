-- ===== src/Sections/Tips/Files.antt =====
-- The tooltips of docs/html/dynsections.js for links to files.
use fiberio.Base.{
  not, ◌≡◌, refl, Bool, true, false, ◌&&◌, List, [], ◌∷◌, ◌++◌, map, Option, none, some, ◌==◌, Text,
  arith, ap,
}
use fiberio.Sections.Tips.{is_terminator, after_slash, strip_dirs, clean, tip_id, CodeLink, ready}

abbrev pub no_slash : Text → Bool
no_slash [] = true
no_slash (c ∷ s) = not (c == b'/') && no_slash s

abbrev pub one_line : Text → Bool
one_line [] = true
one_line (c ∷ s) = not (is_terminator c) && one_line s

-- The address of a file, in a directory or without one.
abbrev pub address : Option Text → Text → Text
address none file = file
address (some dir) file = dir ++ b'/' ∷ file

after_slash-none : (s : Text) → no_slash s ≡ true → after_slash s ≡ none
unfolding after_slash
after_slash-none [] h = refl
after_slash-none (c ∷ s) h = rw (after_slash-none s (ground arith)) (ground arith)

after_slash-append :
    (dir file : Text)
    → one_line dir ≡ true
    → no_slash file ≡ true
    → after_slash (dir ++ b'/' ∷ file) ≡ some file
unfolding after_slash
after_slash-append [] file h k = rw (after_slash-none file k) refl
after_slash-append (c ∷ dir) file h k =
    rw (after_slash-append dir file (ground arith) k) (ground arith)

strip_dirs-none : (s : Text) → no_slash s ≡ true → strip_dirs s ≡ s
unfolding strip_dirs
strip_dirs-none [] h = refl
strip_dirs-none (c ∷ s) h =
    rw (after_slash-none (c ∷ s) h, strip_dirs)
      (ap (λ (r : Text). c ∷ r) (strip_dirs-none s (ground arith)))

strip_dirs-address :
    (dir : Option Text) (file : Text)
    → (elim dir [ none ↦ true | some d ↦ one_line d ]) ≡ true
    → no_slash file ≡ true
    → strip_dirs (address dir file) ≡ file
unfolding strip_dirs
strip_dirs-address none file h k = strip_dirs-none file k
strip_dirs-address (some []) file h k = rw (after_slash-append [] file refl k, strip_dirs) refl
strip_dirs-address (some (c ∷ d)) file h k =
    rw (after_slash-append (c ∷ d) file h k, strip_dirs) refl

-- A link to a file, and what it is given.
abbrev pub is_address : Option Text × Text → Bool
is_address (dir, file) = (elim dir [ none ↦ true | some d ↦ one_line d ]) && no_slash file

abbrev link_to : Option Text × Text → CodeLink
link_to (dir, file) = record { href = some (address dir file); tip = none; power_tip = false }

abbrev pub all_addresses : List (Option Text × Text) → Bool
all_addresses [] = true
all_addresses (a ∷ rest) = is_address a && all_addresses rest

module _ (html : Text → Option Text) where
  abbrev tipped : Option Text × Text → CodeLink
  tipped (dir, file) = record {
    href = some (address dir file);
    tip = html (clean file);
    power_tip = true;
  }

  -- Once the page is ready, each link to a file, in a directory or without one, has the contents of
  -- the element whose id is the name of the file with an underscore for each character that is not
  -- a letter, a digit or an underscore, and no link throws. The name has no slash, and the
  -- directory no line break.
  ready-tipped :
      (addresses : List (Option Text × Text))
      → all_addresses addresses ≡ true
      → ready html (map link_to addresses) ≡ (map tipped addresses, false)
  unfolding ready tip_id
  ready-tipped [] h = refl
  ready-tipped ((dir, file) ∷ rest) h =
      rw
        (
          strip_dirs-address dir file (ground arith) (ground arith),
          ready-tipped rest (ground arith),
        )
        refl
