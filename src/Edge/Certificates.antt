-- ===== src/Edge/Certificates.antt =====
-- internal/edge/tls.go and internal/api/tls_ask.go: for which hosts a certificate may be had. The
-- store answers, or fails (`none`).
pub mod Granted
use portloom.Api.Config.{Config, secure_equal}
use portloom.Domain.Host.{normalize_dns_host}
use portloom.Prelude.{
  Bool, List, Option, Text, [], false, if◌then◌else◌, none, not, some, true, ℕ, ◌==◌, ◌||◌,
}

-- HostPolicy of NewCertificateManager.
pub data Policy : Type 0 where
  granted invalid_host store_failed unauthorized_host : Policy

-- The public host that NewCertificateManager accepts. Whether the cache's path is absolute is an
-- argument.
unfoldable pub certificate_host : (ℕ → ℕ) → Bool → Text → Option Text
unfolding normalize_dns_host ◌==◌
certificate_host unicode_lower cache_is_absolute public_host =
    let host = normalize_dns_host unicode_lower public_host in
    if public_host == [] || not cache_is_absolute then none else host

unfoldable pub ask_store : (Text → Option Bool) → Text → Policy
ask_store enabled host = elim (enabled host) [
  | none ↦ store_failed
  | some true ↦ granted
  | some false ↦ unauthorized_host
]

unfoldable pub host_policy : (ℕ → ℕ) → Text → (Text → Option Bool) → Text → Policy
unfolding normalize_dns_host ask_store ◌==◌
host_policy unicode_lower public_host enabled raw = elim (normalize_dns_host unicode_lower raw) [
  | none ↦ invalid_host
  | some host ↦ if host == public_host then granted else ask_store enabled host
]

-- The status that allowTLSCertificate answers, for the parameters `token` and `domain`.
unfoldable pub ask_status : (Text → Option Bool) → Text → ℕ
ask_status enabled host = elim (enabled host) [ none ↦ 500 | some true ↦ 200 | some false ↦ 403 ]

abbrev pub is_public : Option Text → Text → Bool
is_public none host = false
is_public (some public_host) host = host == public_host

-- The part of allowTLSCertificate after the check of the token.
unfoldable pub domain_status : (ℕ → ℕ) → Config → (Text → Option Bool) → Text → ℕ
unfolding normalize_dns_host ask_status ◌==◌
domain_status unicode_lower config enabled raw = elim (normalize_dns_host unicode_lower raw) [
  | none ↦ 400
  | some host ↦
      if is_public (normalize_dns_host unicode_lower config.public_host) host
      then 200
      else ask_status enabled host
]

unfoldable pub allow_tls_certificate :
    (Text → List ℕ) → (ℕ → ℕ) → Config → (Text → Option Bool) → Text → Text → ℕ
unfolding secure_equal domain_status ◌==◌
allow_tls_certificate sha256 unicode_lower config enabled token raw =
    if config.tls_ask_token == [] || not (secure_equal sha256 token config.tls_ask_token)
    then 401
    else domain_status unicode_lower config enabled raw
