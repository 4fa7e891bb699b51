-- ===== src/Domain/Host.antt =====
-- internal/domain/route.go: host names. A function that returns `(string, bool)` returns an
-- `Option`; `unicode_lower` is Unicode's table of lower case above ASCII.
pub mod Laws
pub mod Plain
use portloom.Net.{is_ip, split_host_port}
use portloom.Prelude.{
  Bool, List, Option, Text, [], all, any, false, if◌then◌else◌, leb, length, ltb, nat_eq, none, not,
  some, true, ℕ, ◌&&◌, ◌||◌, ◌∷◌,
}
use portloom.Strings.{
  contains, is_digit, is_lower, is_upper, len, split, to_lower, trim_space, trim_suffix,
}

-- The class [a-z0-9] of `hostnameRE` under (?i): Go's folding adds U+017F, which folds to `s`,
-- and U+212A, which folds to `k`.
abbrev pub is_host_alnum : ℕ → Bool
is_host_alnum c = is_lower c || is_upper c || is_digit c || nat_eq c 0x17F || nat_eq c 0x212A

abbrev pub is_host_char : ℕ → Bool
is_host_char c = is_host_alnum c || nat_eq c b'-'

-- The part [a-z0-9-]{0,61}[a-z0-9] of a label, after its first character.
unfoldable pub ends_alnum : Text → Bool
ends_alnum [] = false
ends_alnum (c ∷ []) = is_host_alnum c
ends_alnum (c ∷ d ∷ s) = is_host_char c && ends_alnum (d ∷ s)

unfoldable pub is_label : Text → Bool
unfolding ends_alnum
is_label [] = false
is_label (c ∷ []) = is_host_alnum c
is_label (c ∷ d ∷ s) = is_host_alnum c && ends_alnum (d ∷ s) && leb (length (d ∷ s)) 62

-- hostnameRE.MatchString: labels between dots.
unfoldable pub matches_hostname : Text → Bool
unfolding is_label split
matches_hostname s = all is_label (split b'.' s)

unfoldable pub normalize_host : (ℕ → ℕ) → Text → Text
unfolding trim_space to_lower split_host_port trim_suffix
normalize_host unicode_lower value =
    let v = trim_space (to_lower unicode_lower value) in
    trim_suffix b'.' (elim (split_host_port v) [ some (host, port) ↦ host | none ↦ v ])

abbrev pub last_label : List Text → Text
last_label [] = []
last_label (w ∷ []) = w
last_label (w ∷ v ∷ ws) = last_label (v ∷ ws)

-- The checks of NormalizeDNSHost on the value that was trimmed and put in lower case.
unfoldable pub is_dns_host : Text → Bool
unfolding matches_hostname split len is_ip
is_dns_host value =
    not (is_ip value)
    && not (ltb 253 (len value))
    && matches_hostname value
    && leb 2 (length (split b'.' value))
    && any is_lower (last_label (split b'.' value))

unfoldable pub normalize_dns_host : (ℕ → ℕ) → Text → Option Text
unfolding trim_space to_lower contains trim_suffix is_dns_host
normalize_dns_host unicode_lower value =
    let v = trim_space (to_lower unicode_lower value) in
    let w = trim_suffix b'.' v in
    if contains b':' v then none else if is_dns_host w then some w else none

unfoldable pub valid_host : Text → Bool
unfolding is_ip matches_hostname len
valid_host value = if is_ip value then true else leb (len value) 253 && matches_hostname value
