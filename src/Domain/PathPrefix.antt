-- ===== src/Domain/PathPrefix.antt =====
-- internal/domain/route.go: path prefixes.
pub mod Laws
use portloom.Prelude.{
  Bool, Option, Text, [], all, any, codes, if◌then◌else◌, nat_eq, none, not, some, ℕ, ◌==◌, ◌||◌,
  ◌∷◌,
}
use portloom.Strings.{has_prefix, is_digit, is_lower, is_upper, split, trim_space, trim_suffix}

-- One character of `pathPrefixRE`.
abbrev pub is_path_char : ℕ → Bool
is_path_char c =
    is_upper c || is_lower c || is_digit c || any (nat_eq c) (codes "._~!$&'()*+,;=:@%/-")

-- The segments that NormalizePathPrefix refuses.
abbrev pub is_bad_segment : Text → Bool
is_bad_segment segment = segment == [] || segment == codes "." || segment == codes ".."

-- The loop over the segments of `value[1:]`, after the trailing slash was trimmed.
unfoldable pub check_segments : Text → Option Text
unfolding split ◌==◌
check_segments [] = none
check_segments (c ∷ rest) = if any is_bad_segment (split b'/' rest) then none else some (c ∷ rest)

unfoldable pub normalize_path_prefix : Text → Option Text
unfolding trim_space trim_suffix has_prefix check_segments ◌==◌
normalize_path_prefix raw =
    let value = trim_space raw in
    if value == [] || value == codes "/"
    then some []
    else if not (has_prefix (codes "/") value) || not (all is_path_char value)
    then none
    else check_segments (trim_suffix b'/' value)
