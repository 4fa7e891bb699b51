-- ===== src/Net.antt =====
-- What the program uses of Go's `net`: whether a text is an IP address, and host and port.
pub mod Laws
use portloom.Prelude.{
  Bool, Option, Text, [], codes, false, if◌then◌else◌, leb, ltb, nat_eq, none, not, some, suc, true,
  zero, ℕ, ◌&&◌, ◌*◌, ◌++◌, ◌+◌, ◌-◌, ◌||◌, ◌∷◌,
}
use portloom.Strings.{contains, cut_first, cut_last, is_digit}

-- parseIPv4Fields of net/netip: `val`, the digits of the field so far and the fields closed.
ipv4_from : ℕ → ℕ → ℕ → Text → Bool
ipv4_from val digits closed [] = nat_eq closed 3 && ltb 0 digits
ipv4_from val digits closed (c ∷ s) =
    let v = val * 10 + (c - b'0') in
    let more = ipv4_from v (digits + 1) closed s in
    let next = ipv4_from 0 0 (closed + 1) s in
    if is_digit c
    then (if nat_eq digits 1 && nat_eq val 0 then false else if ltb 255 v then false else more)
    else if nat_eq c b'.'
    then (if nat_eq digits 0 then false else if nat_eq closed 3 then false else next)
    else false

unfoldable pub is_ipv4 : Text → Bool
unfolding ipv4_from
is_ipv4 s = ipv4_from 0 0 0 s

abbrev pub is_hex : ℕ → Bool
is_hex c = is_digit c || (leb b'a' c && leb c b'f') || (leb b'A' c && leb c b'F')

-- The hexadecimal digits at the front, counted, and what follows them.
unfoldable pub hex_run : Text → ℕ × Text
hex_run [] = (0, [])
hex_run (c ∷ s) = let (n, rest) = hex_run s in if is_hex c then (n + 1, rest) else (0, c ∷ s)

-- The loop of parseIPv6 of net/netip: `i` bytes are filled, `ellipsis` tells whether `::` was
-- seen. A round fills two bytes, so eight rounds are all there can be. After a field comes the
-- end, an IPv4 address in the last two places, or a colon and more, perhaps a second colon.
ipv6_from : ℕ → ℕ → Bool → Text → Bool
ipv6_from zero i ellipsis s = false
ipv6_from (suc fuel) i ellipsis s =
    let more = λ (e : Bool) (t : Text). ipv6_from fuel (i + 2) e t in
    let (n, rest) = hex_run s in
    if nat_eq n 0 || ltb 4 n then false else elim rest [
      | [] ↦ if nat_eq i 14 then not ellipsis else ellipsis
      | c ∷ t ↦
          if nat_eq c b'.'
          then (if not ellipsis && not (nat_eq i 12)
              then false
              else if ltb 12 i
              then false
              else is_ipv4 s && (if nat_eq i 12 then not ellipsis else ellipsis))
          else if nat_eq c b':'
          then elim t [
            | [] ↦ false
            | d ∷ u ↦
                if nat_eq d b':'
                then (if ellipsis then false else elim u [
                  | [] ↦ ltb i 14
                  | e ∷ v ↦ if nat_eq i 14 then false else more true (e ∷ v)
                ])
                else if nat_eq i 14
                then false
                else more ellipsis (d ∷ u)
          ]
          else false
    ]

-- A leading `::`, and what follows it.
abbrev cut_ellipsis : Text → Option Text
cut_ellipsis (c ∷ d ∷ s) = if nat_eq c b':' && nat_eq d b':' then some s else none
cut_ellipsis _ = none

unfoldable pub is_ipv6 : Text → Bool
unfolding ipv6_from hex_run is_ipv4
is_ipv6 s = elim (cut_ellipsis s) [
  | none ↦ ipv6_from 8 0 false s
  | some [] ↦ true
  | some (c ∷ t) ↦ ipv6_from 8 0 true (c ∷ t)
]

-- netip.ParseAddr looks for the first `.`, `:` or `%`.
ip_by_mark : Text → Text → Bool
ip_by_mark whole [] = false
ip_by_mark whole (c ∷ s) =
    if nat_eq c b'.'
    then is_ipv4 whole
    else if nat_eq c b':'
    then is_ipv6 whole
    else if nat_eq c b'%'
    then false
    else ip_by_mark whole s

-- net.ParseIP(s) != nil
unfoldable pub is_ip : Text → Bool
unfolding ip_by_mark is_ipv4 is_ipv6
is_ip s = ip_by_mark s s

-- net.SplitHostPort; an error is `none`.
split_bracketed : Text → Option (Text × Text)
split_bracketed t = elim (cut_first b']' t) [
  | some (host, c ∷ port) ↦
      if nat_eq c b':'
        && not (contains b':' port)
        && not (contains b'[' host)
        && not (contains b'[' port)
        && not (contains b']' port)
      then some (host, port)
      else none
  | some (host, []) ↦ none
  | none ↦ none
]

split_plain : Text → Option (Text × Text)
split_plain s = elim (cut_last b':' s) [
  | some (host, port) ↦
      if contains b':' host || contains b'[' s || contains b']' s then none else some (host, port)
  | none ↦ none
]

unfoldable pub split_host_port : Text → Option (Text × Text)
unfolding split_bracketed split_plain cut_first cut_last contains
split_host_port [] = none
split_host_port (c ∷ s) = if nat_eq c b'[' then split_bracketed s else split_plain (c ∷ s)

-- net.JoinHostPort
unfoldable pub join_host_port : Text → Text → Text
unfolding contains
join_host_port host port =
    if contains b':' host || contains b'%' host
    then codes "[" ++ host ++ codes "]:" ++ port
    else host ++ codes ":" ++ port
