-- ===== src/Edge/Certificates/Granted.antt =====
-- The two checks before a certificate is asked for, and the hosts that pass them.
use mathlib.Core.List.{Memᴰ}
use portloom.Api.Config.{Config, secure_equal}
use portloom.Domain.Host.{normalize_dns_host}
use portloom.Domain.Route.{Route, https, protocol_eq, protocol_eq_iff}
use portloom.Edge.Certificates.{
  allow_tls_certificate, ask_status, ask_store, certificate_host, domain_status, granted,
  host_policy,
}
use portloom.Gateway.{https_route_enabled}
use portloom.Gateway.Serving.{https_route_enabled-inv}
use portloom.Prelude.{
  Bool, Bool-cases, List, Option, Option-cases, Text, [], any, ap, arith, false, inl, inr, some,
  subst, sym, text_eq_iff, true, ℕ, ◌&&◌, ◌==◌, ◌↔◌, ◌∙◌, ◌∷◌, ◌≡◌, ◌≢◌, ◌⊎◌,
}
use portloom.Store.Db.{Db}
use portloom.Store.Routes.{web_domain_enabled}

-- An enabled HTTPS route of the database has this host.
pub record IsPublished (db : Db) (host : Text) : Type 0 where
  pub route : Route
  pub listed : Memᴰ route db.routes
  pub secure : route.protocol ≡ https
  pub named : route.domain ≡ host
  pub enabled : route.enabled ≡ true

abbrev pub asks : Db → Text → Option Bool
asks db host = some (web_domain_enabled https host db)

any_of_published :
    (host : Text) (l : List Route) (r : Route)
    → Memᴰ r l
    → (r.protocol ≡ https) × (r.domain ≡ host) × (r.enabled ≡ true)
    → any (λ r. protocol_eq r.protocol https && r.domain == host && r.enabled) l ≡ true
any_of_published host [] r m h = elim m [ ]
any_of_published host (q ∷ l) r (Memᴰ.head e) (secure, named, on) =
    let e1 : q.protocol ≡ r.protocol = ap (λ (x : Route). x.protocol) (sym e) in
    let e2 : q.domain ≡ r.domain = ap (λ (x : Route). x.domain) (sym e) in
    let e3 : q.enabled ≡ r.enabled = ap (λ (x : Route). x.enabled) (sym e) in
    ground (
      arith,
      (protocol_eq_iff q.protocol https).1 (e1 ∙ secure),
      (text_eq_iff q.domain host).1 (e2 ∙ named),
      e3 ∙ on,
    )
any_of_published host (q ∷ l) r (Memᴰ.tail m) h = ground (arith, any_of_published host l r m h)

web_domain_enabled-IsPublished :
    (db : Db) (host : Text) → (web_domain_enabled https host db ≡ true) ↔ IsPublished db host
unfolding web_domain_enabled https_route_enabled
web_domain_enabled-IsPublished db host = (
  λ e.
      let (r, listed, secure, named, on) = https_route_enabled-inv db.routes host e in
      record { route = r; listed = listed; secure = secure; named = named; enabled = on },
  λ p. any_of_published host db.routes p.route p.listed (p.secure, p.named, p.enabled),
)

ask_store-granted :
    (db : Db) (host : Text)
    → (ask_store (asks db) host ≡ granted) ↔ (web_domain_enabled https host db ≡ true)
unfolding ask_store
ask_store-granted db host = ground arith

-- HostPolicy lets a certificate be asked for exactly for a valid host name that is the public host or
-- the domain of an enabled HTTPS route.
pub host_policy-granted_iff :
    (unicode_lower : ℕ → ℕ) (public_host : Text) (db : Db) (raw : Text)
    → (host_policy unicode_lower public_host (asks db) raw ≡ granted) ↔ (
        (host : Text) × (normalize_dns_host unicode_lower raw ≡ some host)
        × ((host ≡ public_host) ⊎ IsPublished db host))
unfolding host_policy
host_policy-granted_iff unicode_lower public_host db raw =
    elim (Option-cases (normalize_dns_host unicode_lower raw)) [
      | inl e ↦ ((λ q. absurd (ground arith)), (λ (host, same, rest). absurd (cc)))
      | inr (host, e) ↦
          let (asked, answered) = ask_store-granted db host in
          let (published, of_published) = web_domain_enabled-IsPublished db host in
          elim (Bool-cases (host == public_host)) [
            | inl h ↦ (λ q. (host, e, inl ((text_eq_iff host public_host).0 h)), λ q. ground arith)
            | inr h ↦ (
              λ q. (host, e, inr (published (asked (ground arith)))),
              λ (name, same, allowed).
                  let same_host : name ≡ host = cc in
                  elim allowed [
                    | inl public ↦
                        absurd (
                          ground (arith, (text_eq_iff host public_host).1 (sym same_host ∙ public)))
                    | inr p ↦
                        let yes_then =
                          answered (of_published (subst (IsPublished db) same_host p)) in
                        ground arith
                  ],
            )
          ]
    ]

ask_status-granted :
    (db : Db) (host : Text)
    → (ask_status (asks db) host ≡ 200) ↔ (ask_store (asks db) host ≡ granted)
unfolding ask_store ask_status
ask_status-granted db host = ground arith

domain_status-granted :
    (unicode_lower : ℕ → ℕ) (config : Config) (public_host : Text) (db : Db) (raw : Text)
    → normalize_dns_host unicode_lower config.public_host ≡ some public_host
    → (domain_status unicode_lower config (asks db) raw ≡ 200)
      ↔ (host_policy unicode_lower public_host (asks db) raw ≡ granted)
unfolding domain_status host_policy
domain_status-granted unicode_lower config public_host db raw public =
    elim (Option-cases (normalize_dns_host unicode_lower raw)) [
      | inl e ↦ ground arith
      | inr (host, e) ↦ let agrees = ask_status-granted db host in ground arith
    ]

-- The authorization endpoint answers 200 exactly for a request with its token, which is set, and a
-- host for which the built-in manager may ask for a certificate: the two ways of serving TLS agree.
pub allow_tls_certificate-host_policy :
    (sha256 : Text → List ℕ) (unicode_lower : ℕ → ℕ) (config : Config) (public_host : Text)
    (db : Db) (token raw : Text)
    → certificate_host unicode_lower true config.public_host ≡ some public_host
    → (allow_tls_certificate sha256 unicode_lower config (asks db) token raw ≡ 200) ↔ (
        (config.tls_ask_token ≢ [])
        × (sha256 token ≡ sha256 config.tls_ask_token)
        × (host_policy unicode_lower public_host (asks db) raw ≡ granted))
unfolding allow_tls_certificate certificate_host secure_equal
allow_tls_certificate-host_policy sha256 unicode_lower config public_host db token raw known =
    let public : normalize_dns_host unicode_lower config.public_host ≡ some public_host =
      ground arith in
    let agrees = domain_status-granted unicode_lower config public_host db raw public in
    let same = text_eq_iff (sha256 token) (sha256 config.tls_ask_token) in
    let named = text_eq_iff config.tls_ask_token [] in
    (
      (λ e. (
        (λ empty. ground (arith, e, named.1 empty)),
        same.0 (ground arith),
        agrees.0 (ground arith),
      )),
      (λ (there, right, allowed).
          let set : (config.tls_ask_token == []) ≡ false = ground (arith, there, named) in
          let full = agrees.1 allowed in ground (arith, set, same.1 right, full)),
    )
