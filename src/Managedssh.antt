-- ===== src/Managedssh.antt =====
-- internal/managedssh/address.go: the loopback address of an agent. `sha256` is the digest of
-- crypto/sha256, as 32 bytes.
use portloom.Prelude.{
  List, Option, Text, [], codes, get_or, if◌then◌else◌, none, pos, some, ℕ, ◌%◌, ◌++◌, ◌+◌, ◌==◌,
}
use portloom.Strings.{itoa, trim_space}

abbrev pub legacy_bind_address : Text
legacy_bind_address = codes "127.0.0.1"

abbrev pub dotted : ℕ → ℕ → ℕ → ℕ → Text
dotted a b c d =
    itoa (pos a)
    ++ codes "."
    ++ itoa (pos b)
    ++ codes "."
    ++ itoa (pos c)
    ++ codes "."
    ++ itoa (pos d)

abbrev pub byte_at : List ℕ → ℕ → ℕ
byte_at digest i = get_or digest i 0

unfoldable pub bind_address : (Text → List ℕ) → Text → Option Text
unfolding trim_space ◌==◌
bind_address sha256 agent_id =
    let id = trim_space agent_id in
    let digest = sha256 id in
    if id == []
    then none
    else some (dotted 127 (1 + byte_at digest 0 % 254) (byte_at digest 1) (byte_at digest 2))
