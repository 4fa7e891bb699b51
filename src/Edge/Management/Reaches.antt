-- ===== src/Edge/Management/Reaches.antt =====
-- The requests of the HTTPS listener that the control plane answers.
use portloom.Api.Config.{Config}
use portloom.Domain.Agent.{Time}
use portloom.Domain.Host.{normalize_host}
use portloom.Domain.Route.{Route, is_web}
use portloom.Edge.{
  Incoming, Router, from_control, listener_port, manage, management_max_body_bytes, new_router,
  route_https,
}
use portloom.Edge.Management.{IsUnreserved, free-ne-management, is_management_path}
use portloom.Gateway.{Edge, Handler, Outcome, eligible, route_matches, serve_if_match}
use portloom.Gateway.Serving.{serve_if_match-serve_http}
use portloom.Net.{split_host_port}
use portloom.Prelude.{
  All, All-imp, Bool-cases, List, Option, Option-cases, Text, [], and-eq-true, ap, arith, false,
  inl, inr, ltb_ℤ, none, refl, some, subst, sym, text_eq_iff, true, ℕ, ◌&&◌, ◌==◌, ◌↔◌, ◌∙◌, ◌≡◌,
  ◌≢◌,
}
use portloom.Strings.{to_lower, trim_space, trim_suffix}

pub normalize_host-nil : (unicode_lower : ℕ → ℕ) → normalize_host unicode_lower [] ≡ []
unfolding normalize_host trim_space to_lower split_host_port trim_suffix
normalize_host-nil unicode_lower = refl

new_router-public_host :
    (unicode_lower : ℕ → ℕ) (public_host https_addr : Text) (router : Router)
    → new_router unicode_lower public_host https_addr ≡ some router
    → (router.public_host ≡ normalize_host unicode_lower public_host) × (public_host ≢ [])
unfolding new_router
new_router-public_host unicode_lower public_host https_addr router built =
    elim (Bool-cases (normalize_host unicode_lower public_host == [])) [
      | inl e ↦ absurd (ground arith)
      | inr e ↦ elim (Option-cases (listener_port https_addr)) [
        | inl closed ↦ absurd (ground arith)
        | inr (port, found) ↦ (
          ground arith,
          λ empty. absurd (
              ground (
                arith,
                ap (normalize_host unicode_lower) empty ∙ normalize_host-nil unicode_lower,
                text_eq_iff (normalize_host unicode_lower public_host) [],
              )),
        )
      ]
    ]

manage-from_control :
    (sha256 : Text → List ℕ) (h : Handler) (unicode_lower : ℕ → ℕ) (now : Time)
    (outcome : Option Outcome) (r : Incoming)
    → (manage sha256 h unicode_lower now outcome r ≡ from_control) ↔ (
        (outcome ≡ none)
        × (r.deadlines_set ≡ true)
        × (ltb_ℤ management_max_body_bytes r.content_length ≡ false))
unfolding manage
manage-from_control sha256 h unicode_lower now none r =
    ((λ e. ground arith), (λ (e, set, small). ground arith))
manage-from_control sha256 h unicode_lower now (some outcome) r =
    ((λ e. cc), (λ (e, set, small). cc))

module _ (sha256 : Text → List ℕ) (h : Handler) (unicode_lower : ℕ → ℕ) (now : Time) where
  -- The control plane answers exactly the requests for the host of the router that no route of the
  -- store that is ready matches, whose connection takes the deadlines and whose body is not longer
  -- than a mebibyte.
  pub route_https-from_control_iff :
      (router : Router) (routes : List Route) (r : Incoming)
      → (route_https sha256 h unicode_lower now router (some routes) r ≡ from_control) ↔ (
          (normalize_host unicode_lower r.request.host ≡ router.public_host)
          × All (λ q. eligible now router.edge router.public_host r.request.path q ≡ false) routes
          × (r.deadlines_set ≡ true)
          × (ltb_ℤ management_max_body_bytes r.content_length ≡ false))
  unfolding route_https
  route_https-from_control_iff router routes r =
      let found = serve_if_match sha256 h unicode_lower now router.edge (some routes) r.request in
      let (up, down) = manage-from_control sha256 h unicode_lower now found r in
      let (declines, declined) =
        (serve_if_match-serve_http sha256 h unicode_lower now router.edge (some routes)
          r.request).1 in
      elim (Bool-cases (normalize_host unicode_lower r.request.host == router.public_host)) [
        | inr e ↦ (
          (λ q. absurd (ground arith)),
          (λ (same, unready, set, small). absurd (
              ground (
                arith,
                text_eq_iff (normalize_host unicode_lower r.request.host) router.public_host,
              ))),
        )
        | inl e ↦
            let same =
              (text_eq_iff (normalize_host unicode_lower r.request.host) router.public_host).0 e in
            let host = normalize_host unicode_lower r.request.host in
            let Unready : Text → List Route → Type 0 =
              λ name list. All (λ q. eligible now router.edge name r.request.path q ≡ false) list in
            (
              λ q.
                  let (none_found, set, small) = up (ground arith) in
                  let (listed, is_listed, unready) = declines none_found in
                  let is_listed' : listed ≡ routes = cc in
                  (
                    same,
                    subst (λ name. Unready name routes) same
                        (subst (Unready host) is_listed' unready),
                    set,
                    small,
                  ),
              λ (_, unready, set, small).
                  let answered = down (
                    declined (routes, refl, subst (λ name. Unready name routes) (sym same) unready),
                    set,
                    small,
                  ) in
                  ground arith,
            )
      ]

  eligible-free :
      (config : Config) (edge : Edge) (path : Text) (r : Route)
      → IsUnreserved unicode_lower config r
      → config.public_host ≢ []
      → is_management_path unicode_lower config path ≡ true
      → eligible now edge (normalize_host unicode_lower config.public_host) path r ≡ false
  unfolding route_matches
  eligible-free config edge path r free hosted managed =
      let host = normalize_host unicode_lower config.public_host in
      elim (Bool-cases (is_web r.protocol && r.domain == host)) [
        | inr e ↦ ground arith
        | inl e ↦
            let (web, named) = and-eq-true (is_web r.protocol) (r.domain == host) e in
            let unmatched =
              free-ne-management unicode_lower config r path free hosted web
                ((text_eq_iff r.domain host).0 named) managed in
            ground arith
      ]

  -- Where all stored routes are free, a request for the root of the public host or a path below /api,
  -- /assets or /healthz reaches the control plane, if its connection takes the deadlines and its body
  -- is not longer than a mebibyte.
  pub route_https-management :
      (config : Config) (https_addr : Text) (router : Router) (routes : List Route) (r : Incoming)
      → new_router unicode_lower config.public_host https_addr ≡ some router
      → All (IsUnreserved unicode_lower config) routes
      → normalize_host unicode_lower r.request.host
        ≡ normalize_host unicode_lower config.public_host
      → is_management_path unicode_lower config r.request.path ≡ true
      → r.deadlines_set ≡ true
      → ltb_ℤ management_max_body_bytes r.content_length ≡ false
      → route_https sha256 h unicode_lower now router (some routes) r ≡ from_control
  route_https-management config https_addr router routes r built free same managed set small =
      let (host, hosted) =
        new_router-public_host unicode_lower config.public_host https_addr router built in
      (route_https-from_control_iff router routes r).1 (
        same ∙ sym host,
        All-imp routes
            (λ q f.
              subst (λ name. eligible now router.edge name r.request.path q ≡ false) (sym host)
                (eligible-free config router.edge r.request.path q f hosted managed))
            free,
        set,
        small,
      )
