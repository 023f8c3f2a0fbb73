-- ===== src/Sections/Tips.antt =====
-- The handler of docs/html/dynsections.js for a page that is ready: each link to code is given the
-- element that the powerTip plugin shows for it.
pub mod Files
use fiberio.Base.{
  not, ℕ, ◌≡◌, refl, Bool, true, false, ◌&&◌, ◌||◌, List, [], ◌∷◌, ◌++◌, map, Option, none, some,
  leb, ◌==◌, if◌then◌else◌, Text, codes, arith, ap, Bool-cases, inl, inr,
}

-- What `.` does not match.
abbrev pub is_terminator : ℕ → Bool
is_terminator c = c == 10 || (c == 13 || (c == 0x2028 || c == 0x2029))

-- What `.*\/` leaves of a text that it matches from the beginning of, up to the last slash of the line.
unfoldable pub after_slash : Text → Option Text
after_slash [] = none
after_slash (c ∷ s) = elim (after_slash s) [
  | some rest ↦ if is_terminator c then none else some rest
  | none ↦ if c == b'/' then some s else none
]

-- `.replace(/.*\//,'')`: the first match is left out.
unfoldable pub strip_dirs : Text → Text
strip_dirs [] = []
strip_dirs (c ∷ s) = elim (after_slash (c ∷ s)) [ some rest ↦ rest | none ↦ c ∷ strip_dirs s ]

abbrev pub is_word : ℕ → Bool
is_word c =
    leb b'a' c && leb c b'z'
    || (c == b'_' || (leb b'A' c && leb c b'Z' || leb b'0' c && leb c b'9'))

-- `.replace(/[^a-z_A-Z0-9]/g,'_')`
abbrev pub clean : Text → Text
clean s = map (λ c. if is_word c then c else b'_') s

unfoldable pub tip_id : Text → Text
tip_id href = clean (strip_dirs href)

-- An element of class `code` or `codeRef`: its `href`, its data `powertip`, and whether it was handed
-- to the plugin.
pub record CodeLink : Type 0 where
  pub href : Option Text
  pub tip : Option Text
  pub power_tip : Bool

-- The loop, with `html` for the contents of the element of an id, null where there is none; true says
-- that it threw, on a link without an `href`.
unfoldable pub ready : (Text → Option Text) → List CodeLink → List CodeLink × Bool
ready html [] = ([], false)
ready html (l ∷ ls) = elim l.href [
  | none ↦ (l ∷ ls, true)
  | some href ↦
      let (rest, threw) = ready html ls in
      (record l { tip = html (tip_id href); power_tip = true } ∷ rest, threw)
]
