-- ===== src/Api/Routes.antt =====
-- internal/api/api.go: the handlers of routes, and the checks that they make before the store's.
use portloom.Api.{Response, State, one_route, route_list}
use portloom.Api.Config.{
  Config, Env, deleted, invalid_request, write_error, write_json, write_store_error,
}
use portloom.Domain.Agent.{Time}
use portloom.Domain.Host.{normalize_host}
use portloom.Domain.PathPrefix.{normalize_path_prefix}
use portloom.Domain.Route.{
  Route, default_public_port, https, is_stream, is_web, protocol_eq, protocol_text,
  publication_ready_at, tcp, udp,
}
use portloom.Prelude.{
  Bool, List, Option, Text, [], any, codes, false, if◌then◌else◌, int_eq, map, none, not, pos, some,
  true, ℕ, ℤ, ◌&&◌, ◌++◌, ◌==◌, ◌||◌, ◌∷◌,
}
use portloom.Store.Db.{Db, Options, Result, err, ok}
use portloom.Store.Routes.{create_route, delete_route, get_route, list_routes, update_route}
use portloom.Strings.{has_prefix}

abbrev pub reserved_management_prefixes : List Text
reserved_management_prefixes = codes "/api" ∷ codes "/assets" ∷ codes "/healthz" ∷ []

unfoldable pub shadows : Text → Text → Bool
unfolding has_prefix ◌==◌
shadows prefix reserved = prefix == reserved || has_prefix (reserved ++ codes "/") prefix

-- The checks of routeUsesReservedDomain on a web route of the management domain.
unfoldable pub reserves : Route → Option Text → Bool
unfolding shadows protocol_eq ◌==◌
reserves route none = true
reserves route (some prefix) =
    prefix == []
    || not (protocol_eq route.protocol https)
    || (not (int_eq route.public_port (pos 0)) && not (int_eq route.public_port (pos 443)))
    || any (shadows prefix) reserved_management_prefixes

unfoldable pub route_uses_reserved_domain : (ℕ → ℕ) → Config → Route → Bool
unfolding normalize_host normalize_path_prefix reserves ◌==◌
route_uses_reserved_domain unicode_lower config route =
    if not (is_web route.protocol) || config.public_host == []
    then false
    else if not (
        normalize_host unicode_lower route.domain
        == normalize_host unicode_lower config.public_host)
    then false
    else reserves route (normalize_path_prefix route.path_prefix)

abbrev pub is_reserved_port : Config → ℤ → Bool
is_reserved_port config port = elim config.tcp_port_reserved [
  | none ↦ false
  | some reserved ↦ reserved port
]

-- validateRoutePublication: the code of the error, if any.
unfoldable pub validate_route_publication : Config → Route → Option Text
unfolding protocol_eq
validate_route_publication config route =
    if is_stream route.protocol
    then (if protocol_eq route.protocol tcp && not config.tcp_enabled
        then some (codes "tcp_edge_disabled")
        else if protocol_eq route.protocol udp && not config.udp_enabled
        then some (codes "udp_edge_disabled")
        else if is_reserved_port config route.public_port
        then some (codes "reserved_tcp_port")
        else none)
    else if is_web route.protocol
        && not (int_eq route.public_port (default_public_port route.protocol))
        && not (int_eq route.public_port (pos 0))
    then (if not config.web_ports_enabled
        then some (codes "web_port_edge_disabled")
        else if is_reserved_port config route.public_port
        then some (codes "reserved_tcp_port")
        else none)
    else none

-- decorateRoute
unfoldable pub decorated_status : Time → Config → Route → Text
unfolding protocol_eq protocol_text publication_ready_at
decorated_status now config route =
    if not route.enabled
    then codes "disabled"
    else if is_stream route.protocol
    then (if not (if protocol_eq route.protocol udp then config.udp_enabled else config.tcp_enabled)
        then protocol_text route.protocol ++ codes "_edge_disabled"
        else elim config.route_public_status [
          | none ↦ codes "pending"
          | some status ↦ status route
        ])
    else if not (publication_ready_at route now)
    then codes "waiting_agent"
    else if int_eq route.public_port (pos 0)
    then codes "published"
    else elim config.route_web_port_status [
      | none ↦ codes "published"
      | some status ↦ status route.public_port
    ]

abbrev pub decorate_route : Time → Config → Route → Route
unfolding decorated_status
decorate_route now config route = record route { public_status = decorated_status now config route }

-- The checks of createRoute and updateRoute before they call the store.
unfoldable pub refuse_route : Env → Config → Route → Option Text
unfolding route_uses_reserved_domain validate_route_publication
refuse_route env config route =
    if route_uses_reserved_domain env.unicode_lower config route
    then some (codes "reserved_domain")
    else validate_route_publication config route

module _ {S : Type 0} (env : Env) (config : Config) (options : Options) where
  unfoldable pub handle_list_routes : State S → Response S
  unfolding list_routes decorate_route
  handle_list_routes s =
      write_json 200 (route_list (map (decorate_route env.now config) (list_routes s.db)))

  unfoldable pub handle_get_route : Text → State S → Response S
  unfolding get_route decorate_route write_store_error
  handle_get_route id s = elim (get_route id s.db) [
    | err e ↦ write_store_error e
    | ok route ↦ write_json 200 (one_route (decorate_route env.now config route))
  ]

  -- The end of createRoute and updateRoute, for the code of a refusal and the store's result.
  unfoldable pub saved : ℕ → Option Text → Result (Route × Db) → State S → Response S × State S
  unfolding decorate_route write_store_error
  saved status (some code) result s = (write_error 409 code, s)
  saved status none (err e) s = (write_store_error e, s)
  saved status none (ok (route, db)) s =
      (write_json status (one_route (decorate_route env.now config route)), record s { db = db })

  unfoldable pub handle_create_route : Option Route → State S → Response S × State S
  unfolding refuse_route create_route saved
  handle_create_route none s = (invalid_request, s)
  handle_create_route (some route) s =
      let result =
        create_route env.unicode_lower env.now options env.available env.random_id route s.db in
      saved 201 (refuse_route env config route) result s

  unfoldable pub handle_update_route : Text → Option Route → State S → Response S × State S
  unfolding refuse_route update_route saved
  handle_update_route id none s = (invalid_request, s)
  handle_update_route id (some route) s =
      let result = update_route env.unicode_lower env.now id route s.db in
      saved 200 (refuse_route env config route) result s

  unfoldable pub handle_delete_route : Text → State S → Response S × State S
  unfolding delete_route deleted
  handle_delete_route id s = deleted s (delete_route env.now id s.db)
