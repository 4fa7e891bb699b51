-- ===== src/Domain/Route.antt =====
-- internal/domain/route.go: routes, when they are published, and their validation.
pub mod Laws
pub mod Kept
pub mod Endpoint
use portloom.Domain.Agent.{Time}
use portloom.Domain.Host.{normalize_dns_host, normalize_host, valid_host}
use portloom.Domain.PathPrefix.{normalize_path_prefix}
use portloom.Prelude.{
  Bool, Text, [], arith, codes, false, if◌then◌else◌, int_eq, leb_ℤ, ltb_ℤ, nat_eq, negsuc, none,
  not, pos, some, sub_ℕ, text_eq_iff, true, ℕ, ℤ, ◌&&◌, ◌*◌, ◌++◌, ◌-◌, ◌==◌, ◌||◌, ◌↔◌, ◌≡◌,
}
use portloom.Strings.{has_prefix, trim_space}

-- A Go `Protocol` is any string: `other` holds the strings that are none of the four constants.
pub data Protocol : Type 0 where
  http https tcp udp : Protocol
  other : Text → Protocol

unfoldable pub protocol_eq : Protocol → Protocol → Bool
unfolding ◌==◌
protocol_eq http http = true
protocol_eq https https = true
protocol_eq tcp tcp = true
protocol_eq udp udp = true
protocol_eq (other s) (other t) = s == t
protocol_eq _ _ = false

pub protocol_eq_iff : (p q : Protocol) → (protocol_eq p q ≡ true) ↔ (p ≡ q)
unfolding protocol_eq
protocol_eq_iff (other s) (other t) = ground (arith, text_eq_iff s t)
protocol_eq_iff http q = ground arith
protocol_eq_iff p q = ground arith

-- string(p)
unfoldable pub protocol_text : Protocol → Text
protocol_text http = codes "http"
protocol_text https = codes "https"
protocol_text tcp = codes "tcp"
protocol_text udp = codes "udp"
protocol_text (other s) = s

abbrev pub is_web : Protocol → Bool
is_web http = true
is_web https = true
is_web _ = false

abbrev pub is_stream : Protocol → Bool
is_stream tcp = true
is_stream udp = true
is_stream _ = false

abbrev pub default_public_port : Protocol → ℤ
default_public_port http = pos 80
default_public_port https = pos 443
default_public_port _ = pos 0

pub record Route : Type 0 where
  pub id : Text
  pub client_id : Text
  pub name : Text
  pub protocol : Protocol
  pub domain : Text
  pub path_prefix : Text
  pub strip_path : Bool
  pub local_host : Text
  pub local_port : ℤ
  pub remote_port : ℤ
  pub public_port : ℤ
  pub tunnel_group : Text
  pub enabled : Bool
  pub desired_revision : ℤ
  pub observed_revision : ℤ
  pub local_status : Text
  pub tunnel_status : Text
  pub last_error : Text
  pub agent_last_seen_at : Time
  pub public_status : Text
  pub created_at : Time
  pub updated_at : Time

unfoldable pub effective_public_port : Route → ℤ
effective_public_port r =
    if is_web r.protocol && int_eq r.public_port (pos 0)
    then default_public_port r.protocol
    else r.public_port

unfoldable pub matches_path : Route → Text → Bool
unfolding has_prefix ◌==◌
matches_path r path =
    if r.path_prefix == []
    then true
    else path == r.path_prefix || has_prefix (r.path_prefix ++ codes "/") path

-- Durations in nanoseconds.
abbrev pub second : ℕ
second = 1_000_000_000

abbrev pub agent_heartbeat_freshness : ℤ
agent_heartbeat_freshness = pos (90 * second)

abbrev pub clock_skew : ℤ
clock_skew = negsuc (5 * second - 1)

unfoldable pub publication_ready_at : Route → Time → Bool
unfolding ◌==◌
publication_ready_at r now =
    if not r.enabled
      || not (r.tunnel_status == codes "up")
      || ltb_ℤ r.observed_revision r.desired_revision
      || nat_eq r.agent_last_seen_at 0
    then false
    else leb_ℤ clock_skew age && leb_ℤ age agent_heartbeat_freshness
  where
    age : ℤ
    age = sub_ℕ now r.agent_last_seen_at

-- The errors of Validate, one for each message.
pub data Invalid : Type 0 where
  name_required bad_protocol domain_required bad_path_prefix strip_without_prefix : Invalid
  bad_public_port bad_stream_port domain_on_stream prefix_on_stream strip_on_stream : Invalid
  bad_local_host bad_local_port : Invalid

pub data Validated : Type 0 where
  valid : Route → Validated
  invalid : Invalid → Validated

infixl 5 ◌>>=◌
abbrev pub ◌>>=◌ : Validated → (Route → Validated) → Validated
valid r >>= k = k r
invalid e >>= k = invalid e

abbrev pub in_port_range : ℤ → Bool
in_port_range p = not (ltb_ℤ p (pos 1)) && not (ltb_ℤ (pos 65535) p)

abbrev pub known_protocol : Protocol → Bool
known_protocol p = is_web p || is_stream p

-- The web branch of Validate after the domain and the prefix were normalised.
unfoldable pub validate_web_port : Route → Validated
unfolding ◌==◌
validate_web_port r =
    if r.strip_path && r.path_prefix == []
    then invalid strip_without_prefix
    else if not (int_eq r.public_port (pos 0)) && not (in_port_range r.public_port)
    then invalid bad_public_port
    else valid (
        if int_eq r.public_port (default_public_port r.protocol)
        then record r { public_port = pos 0 }
        else r)

unfoldable pub validate_web : (ℕ → ℕ) → Route → Validated
unfolding validate_web_port
validate_web unicode_lower r = elim (normalize_dns_host unicode_lower r.domain) [
  | none ↦ invalid domain_required
  | some d ↦ elim (normalize_path_prefix r.path_prefix) [
    | none ↦ invalid bad_path_prefix
    | some p ↦ validate_web_port (record r { domain = d; path_prefix = p })
  ]
]

unfoldable pub validate_stream : (ℕ → ℕ) → Route → Validated
unfolding ◌==◌
validate_stream unicode_lower r =
    let d = normalize_host unicode_lower r.domain in
    if not (d == [])
    then invalid domain_on_stream
    else if not (r.path_prefix == [])
    then invalid prefix_on_stream
    else if r.strip_path
    then invalid strip_on_stream
    else if not (in_port_range r.public_port)
    then invalid bad_stream_port
    else valid (record r { domain = d })

-- The checks of the local target and the default tunnel group, which end Validate.
unfoldable pub validate_target : Route → Validated
unfolding ◌==◌ protocol_text
validate_target r =
    if not (valid_host r.local_host)
    then invalid bad_local_host
    else if not (in_port_range r.local_port)
    then invalid bad_local_port
    else valid (
        if r.tunnel_group == []
        then record r {
          tunnel_group = if is_stream r.protocol then protocol_text r.protocol else codes "web";
        }
        else r)

-- The trimmed copy that Validate starts from.
unfoldable pub trimmed : (ℕ → ℕ) → Route → Route
trimmed unicode_lower r = record r {
  name = trim_space r.name;
  local_host = normalize_host unicode_lower r.local_host;
  tunnel_group = trim_space r.tunnel_group;
}

unfoldable pub validate : (ℕ → ℕ) → Route → Validated
unfolding trimmed validate_web validate_stream validate_target ◌==◌
validate unicode_lower raw =
    let r = trimmed unicode_lower raw in
    if r.name == []
    then invalid name_required
    else if not (known_protocol r.protocol)
    then invalid bad_protocol
    else ((if is_web r.protocol
          then validate_web unicode_lower r
          else validate_stream unicode_lower r)
        >>= validate_target)
