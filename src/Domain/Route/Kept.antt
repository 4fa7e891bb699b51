-- ===== src/Domain/Route/Kept.antt =====
-- What Validate leaves of a route as it came, internal/domain/route.go.
use portloom.Domain.Host.{normalize_dns_host}
use portloom.Domain.PathPrefix.{normalize_path_prefix}
use portloom.Domain.Route.{
  Route, Validated, invalid, is_web, trimmed, valid, validate, validate_stream, validate_target,
  validate_web, validate_web_port, ◌>>=◌,
}
use portloom.Prelude.{Bool-cases, Option-cases, arith, inl, inr, refl, ℕ, ◌∙◌, ◌≡◌}

validate_target-observed :
    (r s : Route) → validate_target r ≡ valid s → s.observed_revision ≡ r.observed_revision
unfolding validate_target
validate_target-observed r s h = ground arith

validate_web_port-observed :
    (r s : Route) → validate_web_port r ≡ valid s → s.observed_revision ≡ r.observed_revision
unfolding validate_web_port
validate_web_port-observed r s h = ground arith

module _ (unicode_lower : ℕ → ℕ) where
  validate_web-observed :
      (r s : Route)
      → validate_web unicode_lower r ≡ valid s
      → s.observed_revision ≡ r.observed_revision
  unfolding validate_web
  validate_web-observed r s h = elim (Option-cases (normalize_dns_host unicode_lower r.domain)) [
    | inl e ↦ absurd (ground arith)
    | inr (d, e) ↦ elim (Option-cases (normalize_path_prefix r.path_prefix)) [
      | inl f ↦ absurd (ground arith)
      | inr (p, f) ↦
          validate_web_port-observed (record r { domain = d; path_prefix = p }) s (ground arith)
    ]
  ]

  validate_stream-observed :
      (r s : Route)
      → validate_stream unicode_lower r ≡ valid s
      → s.observed_revision ≡ r.observed_revision
  unfolding validate_stream
  validate_stream-observed r s h = ground arith

  then_target :
      (t : Route) (v : Validated) (s : Route)
      → ((r : Route) → v ≡ valid r → r.observed_revision ≡ t.observed_revision)
      → (v >>= validate_target) ≡ valid s
      → s.observed_revision ≡ t.observed_revision
  then_target t (valid r) s k h = validate_target-observed r s h ∙ k r refl
  then_target t (invalid e) s k h = cc

  pub validate-observed :
      (raw s : Route)
      → validate unicode_lower raw ≡ valid s
      → s.observed_revision ≡ raw.observed_revision
  unfolding validate trimmed
  validate-observed raw s h =
      let t = trimmed unicode_lower raw in
      elim (Bool-cases (is_web raw.protocol)) [
        | inl web ↦
            then_target t (validate_web unicode_lower t) s (validate_web-observed t) (ground arith)
        | inr stream ↦
            then_target t (validate_stream unicode_lower t) s (validate_stream-observed t)
              (ground arith)
      ]
