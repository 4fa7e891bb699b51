-- ===== src/Gateway.antt =====
-- internal/gateway/gateway.go: which route serves a request, and where it is sent. The clock, the
-- routes that the store listed (`none` if it failed) and the request are arguments.
pub mod Selection
pub mod Unique
pub mod Serving
pub mod Stripping
use portloom.Domain.Agent.{Time}
use portloom.Domain.Host.{normalize_host}
use portloom.Domain.Route.{
  Route, https, is_web, matches_path, protocol_eq, protocol_text, publication_ready_at, trimmed,
}
use portloom.Managedssh.{bind_address, legacy_bind_address}
use portloom.Net.{join_host_port}
use portloom.Prelude.{
  Bool, List, Option, Text, [], any, codes, false, if◌then◌else◌, int_eq, ltb, ltb_ℤ, none, not,
  pos, some, ℕ, ℤ, ◌&&◌, ◌++◌, ◌==◌, ◌||◌, ◌∷◌,
}
use portloom.Strings.{itoa, len, trim_prefix}

pub record Edge : Type 0 where
  pub scheme : Text
  pub port : ℤ
  pub is_default : Bool

-- What the handler reads of a request.
pub record Request : Type 0 where
  pub host : Text
  pub path : Text
  pub uri : Text

pub record Handler : Type 0 where
  pub isolated_agent_bindings : Bool
  pub https_redirect_port : ℤ
  -- the path of a request after ProxyRequest.SetURL of net/http/httputil, for a target without one
  pub set_url_path : Text → Text

pub data Outcome : Type 0 where
  unavailable not_found : Outcome
  redirect : Text → Outcome
  -- the route, the address of its tunnel and the path that is asked for there
  proxied : Route → Text → Text → Outcome

-- The `switch` on the scheme.
abbrev serves_port : Route → Edge → Bool
serves_port route edge =
    if edge.scheme == []
    then int_eq route.public_port (pos 0)
    else if edge.scheme == protocol_text route.protocol
    then (if int_eq route.public_port (pos 0)
        then edge.is_default
        else not edge.is_default && int_eq edge.port route.public_port)
    else false

unfoldable pub route_matches : Route → Edge → Text → Text → Bool
unfolding ◌==◌ protocol_text matches_path
route_matches route edge host path =
    if not (is_web route.protocol) || not (route.domain == host)
    then false
    else serves_port route edge && matches_path route path

abbrev pub eligible : Time → Edge → Text → Text → Route → Bool
eligible now edge host path route =
    route_matches route edge host path && publication_ready_at route now

-- One round of the loop of selectRoute.
unfoldable pub better : Option Route → Route → Option Route
unfolding len
better none route = some route
better (some selected) route =
    if ltb (len selected.path_prefix) (len route.path_prefix) then some route else some selected

-- The loop, over the test that a route must pass.
unfoldable pub select_from : (Route → Bool) → Option Route → List Route → Option Route
unfolding better
select_from p selected [] = selected
select_from p selected (r ∷ rs) = select_from p (if p r then better selected r else selected) rs

unfoldable pub select_route : Time → List Route → Edge → Text → Text → Option Route
unfolding select_from
select_route now routes edge host path = select_from (eligible now edge host path) none routes

unfoldable pub https_route_enabled : List Route → Text → Bool
unfolding ◌==◌ protocol_eq
https_route_enabled routes host =
    any (λ r. protocol_eq r.protocol https && r.domain == host && r.enabled) routes

-- The path that the rewrite of the proxy asks for, from the one that SetURL gives.
unfoldable pub stripped_path : Route → Text → Text
unfolding ◌==◌ trim_prefix
stripped_path route path =
    if route.strip_path && not (route.path_prefix == [])
    then (let trimmed = trim_prefix route.path_prefix path in
        if trimmed == [] then codes "/" else trimmed)
    else path

-- The proxy, with the address that the tunnel is bound to.
unfoldable pub proxy_to : (Text → Text) → Option Text → Request → Route → Outcome
unfolding stripped_path itoa
proxy_to set_url_path none request route = unavailable
proxy_to set_url_path (some address) request route =
    proxied route (address ++ codes ":" ++ itoa route.remote_port)
      (stripped_path route (set_url_path request.path))

module _ (sha256 : Text → List ℕ) (h : Handler) where
  unfoldable pub bind_of : Route → Option Text
  unfolding bind_address
  bind_of route =
      if h.isolated_agent_bindings
      then bind_address sha256 route.client_id
      else some legacy_bind_address

  unfoldable pub proxy : Request → Route → Outcome
  unfolding bind_of proxy_to
  proxy request route = proxy_to h.set_url_path (bind_of route) request route

  module _ (unicode_lower : ℕ → ℕ) (now : Time) (edge : Edge) where
    -- ServeIfMatch: `none` where no ready route claims the request.
    unfoldable pub serve_if_match : Option (List Route) → Request → Option Outcome
    unfolding normalize_host select_route proxy
    serve_if_match none request = some unavailable
    serve_if_match (some routes) request =
        elim (select_route now routes edge (normalize_host unicode_lower request.host)
          request.path) [ none ↦ none | some route ↦ some (proxy request route) ]

    -- ServeHTTP where no route was selected.
    unfoldable pub fall_back : List Route → Text → Text → Outcome
    unfolding https_route_enabled join_host_port itoa ◌==◌
    fall_back routes host uri =
        if edge.scheme == codes "http"
          && ltb_ℤ (pos 0) h.https_redirect_port
          && https_route_enabled routes host
        then redirect (
            codes "https://"
            ++ (if int_eq h.https_redirect_port (pos 443)
                then host
                else join_host_port host (itoa h.https_redirect_port))
            ++ uri)
        else not_found

    -- ServeHTTP once a route was looked for.
    unfoldable pub answer : Option Route → List Route → Text → Request → Outcome
    unfolding proxy fall_back
    answer none routes host request = fall_back routes host request.uri
    answer (some route) routes host request = proxy request route

    unfoldable pub serve_http : Option (List Route) → Request → Outcome
    unfolding normalize_host select_route answer
    serve_http none request = unavailable
    serve_http (some routes) request =
        let host = normalize_host unicode_lower request.host in
        answer (select_route now routes edge host request.path) routes host request
