-- ===== src/SearchId.antt =====
-- convertToId of docs/html/search/search.js: the row identifiers of the search page.
pub mod Prefix
use fiberio.Base.{
  ℕ, zero, suc, ◌+◌, ◌*◌, ◌-◌, ◌/◌, ◌%◌, ◌≤◌, ◌<◌, ◌≡◌, refl, Bool, ◌&&◌, ◌||◌, List, [], ◌∷◌, ◌++◌,
  arith, ltb, leb, ◌==◌, if◌then◌else◌, Text, codes,
}

-- A digit of `toString(16)`.
unfoldable pub hex_digit : ℕ → ℕ
hex_digit d = if ltb d 10 then d + b'0' else d + b'a' - 10

-- `n.toString(16)`, most significant digit first; a digit is produced for each unit of fuel.
hex_digits : ℕ → ℕ → Text → Text
hex_digits zero n acc = acc
hex_digits (suc f) n acc =
    let rest = hex_digits f (n / 16) (hex_digit (n % 16) ∷ acc) in
    if ltb n 16 then hex_digit n ∷ acc else rest

unfoldable pub to_hex : ℕ → Text
unfolding hex_digits
to_hex n = hex_digits (suc n) n []

-- `/[a-z0-9\u0080-\uFFFF]/` on one code unit.
unfoldable pub is_kept : ℕ → Bool
is_kept c = leb b'a' c && leb c b'z' || leb b'0' c && leb c b'9' || leb 0x80 c && leb c 0xffff

-- What the loop of `convertToId` appends for one code unit.
unfoldable pub convert_unit : ℕ → Text
convert_unit c =
    if is_kept c then c ∷ [] else if ltb c 16 then codes "_0" ++ to_hex c else codes "_" ++ to_hex c

unfoldable pub convert_to_id : Text → Text
convert_to_id [] = []
convert_to_id (c ∷ s) = convert_unit c ++ convert_to_id s

test_convert : convert_to_id (codes "~a_b ") ≡ codes "_7ea_5fb_20"
unfolding convert_to_id convert_unit is_kept to_hex hex_digit
test_convert = refl

to_hex-one : (n : ℕ) → n < 16 → to_hex n ≡ hex_digit n ∷ []
unfolding to_hex
to_hex-one n h = ground arith

to_hex-two : (n : ℕ) → 16 ≤ n → n < 256 → to_hex n ≡ hex_digit (n / 16) ∷ hex_digit (n % 16) ∷ []
unfolding to_hex
to_hex-two zero h k = elim h [ ]
to_hex-two (suc n) h k = ground arith
