-- ===== src/Strings.antt =====
-- What the program uses of Go's `strings`, `unicode` and `utf8`. A string is its code points.
pub mod Laws
use portloom.Prelude.{
  Bool, List, Option, Text, [], drop, false, if◌then◌else◌, leb, length, ltb, map, nat_eq, negsuc,
  none, pos, some, suc, true, zero, ℕ, ℤ, ◌%◌, ◌&&◌, ◌+◌, ◌/◌, ◌||◌, ◌∷◌,
}

abbrev pub is_digit : ℕ → Bool
is_digit c = leb b'0' c && leb c b'9'

abbrev pub is_upper : ℕ → Bool
is_upper c = leb b'A' c && leb c b'Z'

abbrev pub is_lower : ℕ → Bool
is_lower c = leb b'a' c && leb c b'z'

-- unicode.IsSpace
unfoldable pub is_space : ℕ → Bool
is_space c =
    (leb 9 c && leb c 13)
    || nat_eq c 0x20
    || nat_eq c 0x85
    || nat_eq c 0xA0
    || nat_eq c 0x1680
    || (leb 0x2000 c && leb c 0x200A)
    || nat_eq c 0x2028
    || nat_eq c 0x2029
    || nat_eq c 0x202F
    || nat_eq c 0x205F
    || nat_eq c 0x3000

unfoldable pub trim_left : Text → Text
trim_left [] = []
trim_left (c ∷ s) = if is_space c then trim_left s else c ∷ s

-- Puts a character before a text that was trimmed on the right.
abbrev pub cons_trimmed : ℕ → Text → Text
cons_trimmed c [] = if is_space c then [] else c ∷ []
cons_trimmed c (d ∷ s) = c ∷ d ∷ s

unfoldable pub trim_right : Text → Text
trim_right [] = []
trim_right (c ∷ s) = cons_trimmed c (trim_right s)

unfoldable pub trim_space : Text → Text
unfolding trim_left trim_right is_space
trim_space s = trim_right (trim_left s)

-- The length of the UTF-8 encoding of one code point, and of a text: Go's `len`.
abbrev pub rune_len : ℕ → ℕ
rune_len c = if ltb c 0x80 then 1 else if ltb c 0x800 then 2 else if ltb c 0x10000 then 3 else 4

unfoldable pub len : Text → ℕ
len [] = 0
len (c ∷ s) = rune_len c + len s

unfoldable pub contains : ℕ → Text → Bool
contains c [] = false
contains c (d ∷ s) = nat_eq d c || contains c s

unfoldable pub has_prefix : Text → Text → Bool
has_prefix [] s = true
has_prefix (c ∷ p) [] = false
has_prefix (c ∷ p) (d ∷ s) = nat_eq c d && has_prefix p s

-- strings.TrimPrefix
unfoldable pub trim_prefix : Text → Text → Text
unfolding has_prefix
trim_prefix p s = if has_prefix p s then drop (length p) s else s

-- strings.TrimSuffix for a suffix of one character.
unfoldable pub trim_suffix : ℕ → Text → Text
trim_suffix c [] = []
trim_suffix c (d ∷ []) = if nat_eq d c then [] else d ∷ []
trim_suffix c (d ∷ e ∷ s) = d ∷ trim_suffix c (e ∷ s)

abbrev pub cons_head : ℕ → List Text → List Text
cons_head c [] = (c ∷ []) ∷ []
cons_head c (w ∷ ws) = (c ∷ w) ∷ ws

-- strings.Split for a separator of one character.
unfoldable pub split : ℕ → Text → List Text
split c [] = [] ∷ []
split c (d ∷ s) = let rest = split c s in if nat_eq d c then [] ∷ rest else cons_head d rest

-- The text before and after the first, or the last, occurrence of a character.
unfoldable pub cut_first : ℕ → Text → Option (Text × Text)
cut_first c [] = none
cut_first c (d ∷ s) =
    let rest = cut_first c s in
    if nat_eq d c then some ([], s) else elim rest [ none ↦ none | some (a, b) ↦ some (d ∷ a, b) ]

unfoldable pub cut_last : ℕ → Text → Option (Text × Text)
cut_last c [] = none
cut_last c (d ∷ s) = elim (cut_last c s) [
  | some (a, b) ↦ some (d ∷ a, b)
  | none ↦ if nat_eq d c then some ([], s) else none
]

-- strings.ToLower maps every code point. `unicode_lower` is the Unicode table above ASCII.
unfoldable pub lower_rune : (ℕ → ℕ) → ℕ → ℕ
lower_rune unicode_lower c =
    if ltb c 0x80 then (if is_upper c then c + 32 else c) else unicode_lower c

unfoldable pub to_lower : (ℕ → ℕ) → Text → Text
unfolding lower_rune
to_lower unicode_lower s = map (lower_rune unicode_lower) s

-- strconv.Itoa: decimal digits, with `fuel` rounds that a number below ten to that power needs.
digits_from : ℕ → ℕ → Text → Text
digits_from zero n acc = acc
digits_from (suc fuel) n acc =
    let more = digits_from fuel (n / 10) ((b'0' + n % 10) ∷ acc) in
    if ltb n 10 then (b'0' + n) ∷ acc else more

unfoldable pub itoa : ℤ → Text
unfolding digits_from
itoa (pos n) = digits_from (suc n) n []
itoa (negsuc n) = b'-' ∷ digits_from (suc (suc n)) (suc n) []
