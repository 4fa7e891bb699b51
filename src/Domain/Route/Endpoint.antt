-- ===== src/Domain/Route/Endpoint.antt =====
-- What Validate makes of the endpoint of a route, internal/domain/route.go.
use portloom.Domain.Host.{normalize_dns_host}
use portloom.Domain.PathPrefix.{normalize_path_prefix}
use portloom.Domain.Route.{
  Route, Validated, default_public_port, invalid, is_web, trimmed, valid, validate, validate_stream,
  validate_target, validate_web, validate_web_port, ◌>>=◌,
}
use portloom.Domain.Route.Laws.{validate_target-SameEndpoint}
use portloom.Prelude.{
  Bool-cases, Option-cases, ap, arith, inl, inr, int_eq, pos, refl, some, subst, sym, true, ℕ, ◌∙◌,
  ◌≡◌, ◌⊎◌,
}

pub record IsEndpointOf (unicode_lower : ℕ → ℕ) (raw s : Route) : Type 0 where
  pub protocol : s.protocol ≡ raw.protocol
  pub domain : normalize_dns_host unicode_lower raw.domain ≡ some s.domain
  pub prefix : normalize_path_prefix raw.path_prefix ≡ some s.path_prefix
  pub port : (s.public_port ≡ raw.public_port) ⊎ (s.public_port ≡ pos 0)

validate_web_port-port :
    (r s : Route)
    → validate_web_port r ≡ valid s
    → (s.public_port ≡ r.public_port) ⊎ (s.public_port ≡ pos 0)
unfolding validate_web_port
validate_web_port-port r s h =
    elim (Bool-cases (int_eq r.public_port (default_public_port r.protocol))) [
      | inl e ↦ inr (ground arith)
      | inr e ↦ inl (ground arith)
    ]

validate_web_port-fields :
    (r s : Route)
    → validate_web_port r ≡ valid s
    → (s.domain ≡ r.domain) × (s.path_prefix ≡ r.path_prefix) × (s.protocol ≡ r.protocol)
unfolding validate_web_port
validate_web_port-fields r s h = ground arith

module _ (unicode_lower : ℕ → ℕ) where
  validate_web-IsEndpointOf :
      (r s : Route) → validate_web unicode_lower r ≡ valid s → IsEndpointOf unicode_lower r s
  unfolding validate_web
  validate_web-IsEndpointOf r s h =
      elim (Option-cases (normalize_dns_host unicode_lower r.domain)) [
        | inl e ↦ absurd (ground arith)
        | inr (d, e) ↦ elim (Option-cases (normalize_path_prefix r.path_prefix)) [
          | inl f ↦ absurd (ground arith)
          | inr (p, f) ↦
              let t : Route = record r { domain = d; path_prefix = p } in
              let done : validate_web_port t ≡ valid s = ground arith in
              let (domain, prefix, protocol) = validate_web_port-fields t s done in
              record {
                protocol = protocol;
                domain = e ∙ ap some (sym domain);
                prefix = f ∙ ap some (sym prefix);
                port = validate_web_port-port t s done;
              }
        ]
      ]

  validate_target-IsEndpointOf :
      (t : Route) (v : Validated) (s : Route)
      → ((r : Route) → v ≡ valid r → IsEndpointOf unicode_lower t r)
      → (v >>= validate_target) ≡ valid s
      → IsEndpointOf unicode_lower t s
  validate_target-IsEndpointOf t (invalid e) s k h = cc
  validate_target-IsEndpointOf t (valid r) s k h =
      let same = validate_target-SameEndpoint r h in
      let w = k r refl in
      record {
        protocol = sym same.protocol ∙ w.protocol;
        domain = w.domain ∙ ap some same.domain;
        prefix = w.prefix ∙ ap some same.path_prefix;
        port = subst (λ q. (q ≡ t.public_port) ⊎ (q ≡ pos 0)) same.public_port w.port;
      }

  pub validate-IsEndpointOf :
      (raw s : Route)
      → is_web raw.protocol ≡ true
      → validate unicode_lower raw ≡ valid s
      → IsEndpointOf unicode_lower raw s
  unfolding validate trimmed
  validate-IsEndpointOf raw s web h =
      let t = trimmed unicode_lower raw in
      let w =
        validate_target-IsEndpointOf t (validate_web unicode_lower t) s
          (validate_web-IsEndpointOf t) (ground arith) in
      record { protocol = w.protocol; domain = w.domain; prefix = w.prefix; port = w.port }

  validate_stream-protocol :
      (r s : Route) → validate_stream unicode_lower r ≡ valid s → s.protocol ≡ r.protocol
  unfolding validate_stream
  validate_stream-protocol r s h = ground arith

  target-protocol :
      (t : Route) (v : Validated) (s : Route)
      → ((r : Route) → v ≡ valid r → r.protocol ≡ t.protocol)
      → (v >>= validate_target) ≡ valid s
      → s.protocol ≡ t.protocol
  target-protocol t (invalid e) s k h = cc
  target-protocol t (valid r) s k h = sym (validate_target-SameEndpoint r h).protocol ∙ k r refl

  pub validate-protocol :
      (raw s : Route) → validate unicode_lower raw ≡ valid s → s.protocol ≡ raw.protocol
  unfolding validate trimmed
  validate-protocol raw s h =
      let t = trimmed unicode_lower raw in
      elim (Bool-cases (is_web raw.protocol)) [
        | inl web ↦ (validate-IsEndpointOf raw s web h).protocol
        | inr stream ↦
            target-protocol t (validate_stream unicode_lower t) s (validate_stream-protocol t)
              (ground arith)
      ]
