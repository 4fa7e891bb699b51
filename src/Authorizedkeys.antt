-- ===== src/Authorizedkeys.antt =====
-- internal/authorizedkeys/authorizedkeys.go: the keys of the agents, for the SSH server. A byte is a
-- number below 256. The file is replaced as a whole, by an argument that says whether that worked.
pub mod Base64
pub mod Bindings
use portloom.Authorizedkeys.Base64.{base64_decode}
use portloom.Managedssh.{bind_address, legacy_bind_address}
use portloom.Prelude.{
  Bool, List, Option, Text, [], all, any, codes, drop, false, if◌then◌else◌, leb, length, ltb,
  nat_eq, none, not, some, take, true, ℕ, ◌&&◌, ◌*◌, ◌++◌, ◌+◌, ◌==◌, ◌||◌, ◌∷◌,
}
use portloom.Strings.{contains, is_digit, is_lower, is_space, is_upper}

-- strings.Fields
unfoldable pub fields_from : Text → Text → List Text
unfolding is_space
fields_from word [] = if word == [] then [] else word ∷ []
fields_from word (c ∷ s) =
    let rest = fields_from [] s in
    let longer = fields_from (word ++ c ∷ []) s in
    if is_space c then (if word == [] then rest else word ∷ rest) else longer

abbrev pub fields : Text → List Text
unfolding fields_from
fields s = fields_from [] s

-- binary.BigEndian.Uint32
abbrev pub uint32 : ℕ → ℕ → ℕ → ℕ → ℕ
uint32 a b c d = ((a * 256 + b) * 256 + c) * 256 + d

unfoldable pub read_string : List ℕ → Option (List ℕ × List ℕ)
read_string (a ∷ b ∷ c ∷ d ∷ rest) =
    let size = uint32 a b c d in
    if ltb (length rest) size then none else some (take size rest, drop size rest)
read_string _ = none

-- The checks of Normalize on the decoded key.
unfoldable pub is_ed25519 : List ℕ → Bool
unfolding read_string ◌==◌
is_ed25519 blob = elim (read_string blob) [
  | none ↦ false
  | some (algorithm, rest) ↦ elim (read_string rest) [
    | none ↦ false
    | some (key, trailing) ↦
        algorithm == codes "ssh-ed25519" && nat_eq (length key) 32 && nat_eq (length trailing) 0
  ]
]

abbrev is_key : Option (List ℕ) → Bool
is_key none = false
is_key (some blob) = is_ed25519 blob

unfoldable pub normalize_fields : List Text → Option Text
unfolding base64_decode is_ed25519 ◌==◌
normalize_fields (algorithm ∷ key ∷ rest) =
    if algorithm == codes "ssh-ed25519" && is_key (base64_decode key)
    then some (codes "ssh-ed25519 " ++ key)
    else none
normalize_fields _ = none

unfoldable pub normalize : Text → Option Text
unfolding contains fields_from normalize_fields
normalize raw =
    if contains 13 raw || contains 10 raw then none else normalize_fields (fields_from [] raw)

pub record Entry : Type 0 where
  pub agent_id : Text
  pub public_key : Text

-- agentIDPattern
abbrev pub is_id_char : ℕ → Bool
is_id_char c = is_upper c || is_lower c || is_digit c || nat_eq c b'_' || nat_eq c b'-'

unfoldable pub is_agent_id : Text → Bool
is_agent_id id = all is_id_char id && leb 1 (length id) && leb (length id) 64

-- sort.Slice by the identifier, which is unique among the entries.
abbrev pub text_lt : Text → Text → Bool
text_lt [] [] = false
text_lt [] (d ∷ t) = true
text_lt (c ∷ s) [] = false
text_lt (c ∷ s) (d ∷ t) = ltb c d || (nat_eq c d && text_lt s t)

unfoldable pub insert_entry : Entry → List Entry → List Entry
insert_entry e [] = e ∷ []
insert_entry e (f ∷ l) =
    let rest = insert_entry e l in if text_lt f.agent_id e.agent_id then f ∷ rest else e ∷ f ∷ l

unfoldable pub sort_entries : List Entry → List Entry
unfolding insert_entry
sort_entries [] = []
sort_entries (e ∷ l) = insert_entry e (sort_entries l)

-- What Write checks and works out for one entry.
pub record Line : Type 0 where
  pub owner : Text
  pub key : Text
  pub address : Text

module _ (sha256 : Text → List ℕ) (isolated : Bool) where
  unfoldable pub address_of : Text → Option Text
  unfolding bind_address
  address_of id = if isolated then bind_address sha256 id else some legacy_bind_address

  -- The loop over the entries: `owners` holds the addresses that were given so far.
  unfoldable pub prepare : List Text → List Entry → Option (List Line)
  unfolding is_agent_id normalize address_of ◌==◌
  prepare owners [] = some []
  prepare owners (e ∷ l) = elim (normalize e.public_key) [
    | none ↦ none
    | some key ↦ elim (address_of e.agent_id) [
      | none ↦ none
      | some address ↦
          let rest = prepare (if isolated then address ∷ owners else owners) l in
          if not (is_agent_id e.agent_id) || (isolated && any (λ a. a == address) owners)
          then none
          else elim rest [
            | none ↦ none
            | some lines ↦
                some (record { owner = e.agent_id; key = key; address = address } ∷ lines)
          ]
    ]
  ]

  abbrev pub command_of : Line → Text
  command_of line =
      if isolated
      then codes "/usr/local/bin/portloom-ssh-session " ++ line.owner ++ codes " " ++ line.address
      else codes "/usr/sbin/nologin"

  abbrev pub line_text : Line → Text
  line_text line =
      codes "command=\""
      ++ command_of line
      ++ codes "\",no-agent-forwarding,no-X11-forwarding,no-pty,no-user-rc,permitlisten=\""
      ++ line.address
      ++ codes ":*\" "
      ++ line.key
      ++ codes " portloom-agent:"
      ++ line.owner
      ++ 10 ∷ []

  abbrev pub lines_text : List Line → Text
  lines_text [] = []
  lines_text (line ∷ lines) = line_text line ++ lines_text lines

  -- Write: whether it succeeded. `replace` is the temporary file that takes the file's place.
  unfoldable pub write_keys : (Text → Bool) → List Entry → Bool
  unfolding sort_entries prepare
  write_keys replace entries = elim (prepare [] (sort_entries entries)) [
    | none ↦ false
    | some lines ↦ replace (lines_text lines)
  ]
