-- ===== src/Gateway/Serving.antt =====
-- What ServeHTTP and ServeIfMatch answer.
use mathlib.Core.List.{Memᴰ}
use portloom.Domain.Agent.{Time}
use portloom.Domain.Host.{normalize_host}
use portloom.Domain.Route.{Route, https, protocol_eq, protocol_eq_iff, publication_ready_at}
use portloom.Gateway.{
  Edge, Handler, Outcome, Request, answer, bind_of, eligible, fall_back, https_route_enabled,
  proxied, proxy, proxy_to, route_matches, select_route, serve_http, serve_if_match, stripped_path,
}
use portloom.Gateway.Selection.{IsBest, select_route-IsBest, select_route-none_iff}
use portloom.Prelude.{
  All, Bool, Bool-cases, List, Option, Option-cases, Text, [], and-eq-true, any, ap, arith, codes,
  false, inl, inr, none, refl, some, subst, sym, text_eq_iff, true, ℕ, ◌&&◌, ◌++◌, ◌==◌, ◌↔◌, ◌∙◌,
  ◌∷◌, ◌≡◌, ◌≢◌,
}
use portloom.Strings.{itoa}

-- A route of the list that is published now, for this host and path.
pub record IsServed (now : Time) (edge : Edge) (host : Text) (routes : List Route)
    (request : Request) (r : Route) : Type 0 where
  pub listed : Memᴰ r routes
  pub matched : route_matches r edge host request.path ≡ true
  pub ready : publication_ready_at r now ≡ true

member_of_any :
    (p : Route → Bool) (l : List Route) → any p l ≡ true → (r : Route) × Memᴰ r l × (p r ≡ true)
member_of_any p [] h = cc
member_of_any p (r ∷ l) h = elim (Bool-cases (p r)) [
  | inl e ↦ (r, Memᴰ.head refl, e)
  | inr e ↦ let (q, m, k) = member_of_any p l (ground arith) in (q, Memᴰ.tail m, k)
]

-- Where a request goes: the route, the address of its tunnel, and the path behind it.
proxy_to-inv :
    (set_url_path : Text → Text) (bound : Option Text) (request : Request) (route r : Route)
    (address path : Text)
    → proxy_to set_url_path bound request route ≡ proxied r address path
    → (route ≡ r)
      × (path ≡ stripped_path r (set_url_path request.path))
      × ((host : Text) × (bound ≡ some host) × (address ≡ host ++ codes ":" ++ itoa r.remote_port))
unfolding proxy_to
proxy_to-inv set_url_path none request route r address path e = cc
proxy_to-inv set_url_path (some host) request route r address path e =
    let same : route ≡ r = ground arith in
    (
      same,
      sym (ground arith) ∙ ap (λ q. stripped_path q (set_url_path request.path)) same,
      (
        host,
        refl,
        sym (ground arith) ∙ ap (λ (q : Route). host ++ codes ":" ++ itoa q.remote_port) same,
      ),
    )

pub https_route_enabled-inv :
    (routes : List Route) (host : Text)
    → https_route_enabled routes host ≡ true
    → (r : Route) × Memᴰ r routes × (r.protocol ≡ https) × (r.domain ≡ host) × (r.enabled ≡ true)
unfolding https_route_enabled
https_route_enabled-inv routes host h =
    let (r, m, k) =
      member_of_any (λ r. protocol_eq r.protocol https && r.domain == host && r.enabled) routes h in
    let (two, enabled) =
      and-eq-true (protocol_eq r.protocol https && r.domain == host) r.enabled k in
    let (secure, named) = and-eq-true (protocol_eq r.protocol https) (r.domain == host) two in
    (
      r,
      m,
      (protocol_eq_iff r.protocol https).0 secure,
      (text_eq_iff r.domain host).0 named,
      enabled,
    )

module _ (sha256 : Text → List ℕ) (h : Handler) (unicode_lower : ℕ → ℕ) (now : Time)
    (edge : Edge) where
  fall_back-ne-proxied :
      (routes : List Route) (host uri : Text) {r : Route} {a p : Text}
      → fall_back sha256 h unicode_lower now edge routes host uri ≢ proxied r a p
  unfolding fall_back
  fall_back-ne-proxied routes host uri e = ground arith

  answer-inv :
      (found : Option Route) (routes : List Route) (host : Text) (request : Request) (r : Route)
      (address path : Text)
      → answer sha256 h unicode_lower now edge found routes host request ≡ proxied r address path
      → (found ≡ some r)
        × (path ≡ stripped_path r (h.set_url_path request.path))
        × ((bound : Text) × (bind_of sha256 h r ≡ some bound)
            × (address ≡ bound ++ codes ":" ++ itoa r.remote_port))
  unfolding answer proxy
  answer-inv none routes host request r address path e =
      absurd (fall_back-ne-proxied routes host request.uri e)
  answer-inv (some route) routes host request r address path e =
      let (same, there, (bound, q, where_to)) =
        proxy_to-inv h.set_url_path (bind_of sha256 h route) request route r address path e in
      (ap some same, there, (bound, ap (bind_of sha256 h) (sym same) ∙ q, where_to))

  -- A request is proxied only to a listed route that matches the listener, the normalised host and
  -- the path, that has no eligible rival with a longer prefix, and that is ready now; it goes to
  -- the remote port of that route on the address of its agent.
  pub serve_http-proxied :
      (routes : List Route) (request : Request) (r : Route) (address path : Text)
      → serve_http sha256 h unicode_lower now edge (some routes) request ≡ proxied r address path
      → IsBest (eligible now edge (normalize_host unicode_lower request.host) request.path) routes r
        × (path ≡ stripped_path r (h.set_url_path request.path))
        × ((bound : Text) × (bind_of sha256 h r ≡ some bound)
            × (address ≡ bound ++ codes ":" ++ itoa r.remote_port))
  unfolding serve_http
  serve_http-proxied routes request r address path e =
      let host = normalize_host unicode_lower request.host in
      let found = select_route now routes edge host request.path in
      let (selected, there, bound) = answer-inv found routes host request r address path e in
      (select_route-IsBest now edge host request.path routes r selected, there, bound)

  -- Where ServeIfMatch answers, ServeHTTP would have answered the same; it declines exactly the
  -- requests for which no ready route matches.
  pub serve_if_match-serve_http :
      (listed : Option (List Route)) (request : Request)
      → ((o : Outcome)
          → serve_if_match sha256 h unicode_lower now edge listed request ≡ some o
          → serve_http sha256 h unicode_lower now edge listed request ≡ o)
        × ((serve_if_match sha256 h unicode_lower now edge listed request ≡ none) ↔ (
            (routes : List Route) × (listed ≡ some routes)
            × All
                (λ r.
                  eligible now edge (normalize_host unicode_lower request.host) request.path r
                  ≡ false)
                routes))
  unfolding serve_http serve_if_match
  serve_if_match-serve_http none request = ((λ o e. cc), ((λ e. cc), (λ (routes, e, h). cc)))
  serve_if_match-serve_http (some routes) request =
      let host = normalize_host unicode_lower request.host in
      let none_ready = select_route-none_iff now edge host request.path routes in
      elim (Option-cases (select_route now routes edge host request.path)) [
        | inl e ↦
            (λ o q. ground arith, (λ q. (routes, refl, none_ready.0 e), λ declined. ground arith))
        | inr (r, e) ↦ (
          λ o q. ground arith,
          (
            λ q. absurd (ground arith),
            λ (listed, same, all_not).
                let same' : listed ≡ routes = cc in
                let nothing = none_ready.1 (
                  subst (All (λ q. eligible now edge host request.path q ≡ false)) same' all_not) in
                absurd (cc),
          ),
        )
      ]
