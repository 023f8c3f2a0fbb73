-- ===== src/Base/Strings.antt =====
-- Text as a list of UTF-16 code units, the way a JavaScript string is indexed.
use Prim.Native.Char.{code}
use Prim.Native.String.{String}
use Prim.Native.Nat.{ℕ}
use mathlib.Core.Path.{◌≡◌, refl}
use mathlib.Core.Bool.{Bool, true, false, ◌&&◌}
use mathlib.Core.List.{List, [], ◌∷◌, ◌++◌}
use native.Mathlib.Omega.{arith}
use fiberio.Base.Tests.{leb, ◌==◌}
use fiberio.Base.Lists.{length, take}

abbrev pub Text : Type 0
Text = List ℕ

-- The code units of a literal.
abbrev pub codes : String → Text
codes String.[] = []
codes (String.◌∷◌ c s) = code c ∷ codes s

abbrev pub join : List Text → Text
join [] = []
join (t ∷ ts) = t ++ join ts

unfoldable pub text_eq : Text → Text → Bool
text_eq [] [] = true
text_eq [] (d ∷ t) = false
text_eq (c ∷ s) [] = false
text_eq (c ∷ s) (d ∷ t) = c == d && text_eq s t

pub text_eq_refl : (s : Text) → text_eq s s ≡ true
unfolding text_eq
text_eq_refl [] = refl
text_eq_refl (c ∷ s) = ground (arith, text_eq_refl s)

pub eq_of_text_eq : (s t : Text) → text_eq s t ≡ true → s ≡ t
unfolding text_eq
eq_of_text_eq [] [] h = refl
eq_of_text_eq [] (d ∷ t) h = cc
eq_of_text_eq (c ∷ s) [] h = cc
eq_of_text_eq (c ∷ s) (d ∷ t) h = ground (arith, eq_of_text_eq s t)

-- The first text begins the second.
unfoldable pub starts_with : Text → Text → Bool
starts_with [] t = true
starts_with (c ∷ s) [] = false
starts_with (c ∷ s) (d ∷ t) = c == d && starts_with s t

-- The test by length and slice that the search page makes is `starts_with`.
pub starts_with-take :
    (s t : Text) → (leb (length s) (length t) && text_eq (take (length s) t) s) ≡ starts_with s t
unfolding starts_with text_eq
starts_with-take [] t = ground arith
starts_with-take (c ∷ s) [] = ground arith
starts_with-take (c ∷ s) (d ∷ t) = ground (arith, starts_with-take s t)

pub starts_with_refl : (s : Text) → starts_with s s ≡ true
unfolding starts_with
starts_with_refl [] = refl
starts_with_refl (c ∷ s) = ground (arith, starts_with_refl s)

pub starts_with_antisymm : (s t : Text) → starts_with s t ≡ true → starts_with t s ≡ true → s ≡ t
unfolding starts_with
starts_with_antisymm [] [] h k = refl
starts_with_antisymm [] (d ∷ t) h k = cc
starts_with_antisymm (c ∷ s) [] h k = cc
starts_with_antisymm (c ∷ s) (d ∷ t) h k = ground (arith, starts_with_antisymm s t)
