-- ===== src/Authorizedkeys/Base64.antt =====
-- base64.StdEncoding.DecodeString, for a text without line breaks: four characters for three bytes,
-- with padding at the end.
use portloom.Prelude.{
  List, Option, Text, [], if◌then◌else◌, nat_eq, none, some, ℕ, ◌%◌, ◌&&◌, ◌*◌, ◌++◌, ◌+◌, ◌-◌, ◌/◌,
  ◌∷◌,
}
use portloom.Strings.{is_digit, is_lower, is_upper}

unfoldable pub digit_of : ℕ → Option ℕ
digit_of c =
    if is_upper c
    then some (c - b'A')
    else if is_lower c
    then some (c - b'a' + 26)
    else if is_digit c
    then some (c - b'0' + 52)
    else if nat_eq c b'+'
    then some 62
    else if nat_eq c b'/'
    then some 63
    else none

abbrev byte_of : ℕ → ℕ
byte_of n = n % 256

-- The bytes of the last group: `=` pads it.
unfoldable pub last_group : ℕ → ℕ → ℕ → ℕ → Option (List ℕ)
unfolding digit_of
last_group a b c d = elim (digit_of a) [
  | none ↦ none
  | some i ↦ elim (digit_of b) [
    | none ↦ none
    | some j ↦ elim (digit_of c) [
      | none ↦ if nat_eq c b'=' && nat_eq d b'=' then some (byte_of (i * 4 + j / 16) ∷ []) else none
      | some k ↦ elim (digit_of d) [
        | none ↦
            if nat_eq d b'='
            then some (byte_of (i * 4 + j / 16) ∷ byte_of (j * 16 + k / 4) ∷ [])
            else none
        | some m ↦
            some (byte_of (i * 4 + j / 16) ∷ byte_of (j * 16 + k / 4) ∷ byte_of (k * 64 + m) ∷ [])
      ]
    ]
  ]
]

abbrev full_group : Option (List ℕ) → Option (List ℕ)
full_group (some (x ∷ y ∷ z ∷ [])) = some (x ∷ y ∷ z ∷ [])
full_group _ = none

unfoldable pub base64_decode : Text → Option (List ℕ)
unfolding last_group
base64_decode [] = some []
base64_decode (a ∷ b ∷ c ∷ d ∷ []) = last_group a b c d
base64_decode (a ∷ b ∷ c ∷ d ∷ e ∷ s) = elim (full_group (last_group a b c d)) [
  | none ↦ none
  | some bytes ↦ elim (base64_decode (e ∷ s)) [ none ↦ none | some rest ↦ some (bytes ++ rest) ]
]
base64_decode _ = none
