-- ===== src/Tests/Edges.antt =====
-- Runs of internal/edge.
use portloom.Api.{EnrollRequest, State, admin, enroll, post_route, post_token}
use portloom.Api.Agents.{
  enrolled_response, handle_enroll, handle_issue_token, issue_with, issued_token,
}
use portloom.Api.Config.{is_admin}
use portloom.Api.Routes.{
  handle_create_route, refuse_route, reserves, route_uses_reserved_domain, saved, shadows,
  validate_route_publication,
}
use portloom.Api.Serve.{serve, serve_admin}
use portloom.Domain.Agent.{valid_agent_name}
use portloom.Domain.Host.{normalize_dns_host, normalize_host, valid_host}
use portloom.Domain.PathPrefix.{normalize_path_prefix}
use portloom.Domain.PathPrefix.Laws.{IsPathPrefix, normalize_path_prefix-IsPathPrefix}
use portloom.Domain.Route.{Route, protocol_text, validate}
use portloom.Edge.{
  Incoming, Router, atoi, from_control, listener_port, management_max_body_bytes, new_router,
  route_https,
}
use portloom.Edge.Certificates.{allow_tls_certificate, certificate_host, granted, host_policy}
use portloom.Edge.Certificates.Granted.{
  IsPublished, allow_tls_certificate-host_policy, asks, host_policy-granted_iff,
}
use portloom.Edge.Management.{IsUnreserved}
use portloom.Edge.Management.Reachable.{Served-route_https, answered, initial}
use portloom.Edge.Management.Reaches.{route_https-from_control_iff, route_https-management}
use portloom.Edge.Management.Served.{serve-AllUnreserved}
use portloom.Edge.Ports.{PortsManager, opens, port_published, port_status, reconcile_ports}
use portloom.Edge.Ports.Publication.{reconcile_ports-status}
use portloom.Gateway.{eligible}
use portloom.Maps.{map_get}
use portloom.Prelude.{
  All, List, Text, [], codes, false, int_eq, ltb_ℤ, map, none, pos, refl, some, true, ℕ, ◌+ℤ◌, ◌==◌,
  ◌↔◌, ◌∷◌, ◌≡◌, ◌≢◌, ◌⊎◌,
}
use portloom.Store.Db.{empty_db, insert_route}
use portloom.Store.Enrollment.{consume_enrollment_token, issue_enrollment_token}
use portloom.Store.Invariant.Reach.{Reach}
use portloom.Store.Routes.{
  allocate_port, bump_desired_revision, create_route, list_routes, public_port_available,
}
use portloom.Strings.{has_prefix, trim_space}
use portloom.Tests.Control.{config, env, state}
use portloom.Tests.Database.{after_create, options, plain}
use portloom.Tests.Routes.{same_case, same_case-IsLowerTable, web_route}
use portloom.Tests.Serving.{clock, handler, https_edge, no_digest}

abbrev console : Text
console = codes "console.example.com"

abbrev router : Router
router = record { public_host = console; edge = https_edge }

router_run : new_router same_case config.public_host (codes ":443") ≡ some router
unfolding new_router normalize_host listener_port atoi
router_run = refl

-- A route on the host of the console, and one elsewhere.
abbrev shared : List Route
shared = record web_route { domain = console } ∷ web_route ∷ []

shared-IsUnreserved : All (IsUnreserved same_case config) shared
unfolding normalize_host route_uses_reserved_domain normalize_path_prefix reserves shadows
shared-IsUnreserved = (
  record { domain = refl; prefix = blog; free = refl },
  (record { domain = refl; prefix = blog; free = refl }, tt),
)
  where
    blog : IsPathPrefix (codes "/blog")
    blog = normalize_path_prefix-IsPathPrefix (codes "/blog") (codes "/blog") refl

abbrev incoming : Incoming
incoming = record {
  request = record { host = console; path = codes "/api/v1/routes"; uri = codes "/api/v1/routes" };
  content_length = pos 0;
  deadlines_set = true;
}

route_https-management_example :
    route_https no_digest handler same_case clock router (some shared) incoming ≡ from_control
unfolding normalize_host ◌==◌ has_prefix
route_https-management_example =
    route_https-management no_digest handler same_case clock config (codes ":443") router shared
      incoming router_run shared-IsUnreserved refl refl refl refl

route_https-from_control_iff_example :
    (route_https no_digest handler same_case clock router (some shared) incoming ≡ from_control) ↔ (
      (normalize_host same_case console ≡ console)
      × All (λ q. eligible clock https_edge console (codes "/api/v1/routes") q ≡ false) shared
      × (true ≡ true)
      × (ltb_ℤ management_max_body_bytes (pos 0) ≡ false))
route_https-from_control_iff_example =
    route_https-from_control_iff no_digest handler same_case clock router shared incoming

host_policy-granted_iff_example :
    (host_policy same_case console (asks after_create) (codes "WWW.example.com") ≡ granted) ↔ (
      (host : Text) × (normalize_dns_host same_case (codes "WWW.example.com") ≡ some host)
      × ((host ≡ console) ⊎ IsPublished after_create host))
host_policy-granted_iff_example =
    host_policy-granted_iff same_case console after_create (codes "WWW.example.com")

certificate_run : certificate_host same_case true config.public_host ≡ some console
unfolding certificate_host normalize_dns_host
certificate_run = refl

allow_tls_certificate-host_policy_example :
    (allow_tls_certificate plain same_case config
        (asks after_create)
        (codes "ask")
        (codes "www.example.com")
      ≡ 200)
    ↔ ((config.tls_ask_token ≢ [])
        × (codes "ask" ≡ codes "ask")
        × (host_policy same_case console (asks after_create) (codes "www.example.com") ≡ granted))
allow_tls_certificate-host_policy_example =
    allow_tls_certificate-host_policy plain same_case config console after_create (codes "ask")
      (codes "www.example.com") certificate_run

abbrev on_port : List Route
on_port = record web_route { public_port = pos 8443 } ∷ []

abbrev ports : PortsManager
ports = record { servers = (pos 8080, codes "http") ∷ []; port_statuses = [] }

reconcile_ports-status_example :
    (map_get int_eq (pos 8443) (reconcile_ports true (λ p. true) (some on_port) ports).servers
      ≡ some (codes "https"))
    × (port_status (reconcile_ports true (λ p. true) (some on_port) ports) (pos 8443)
        ≡ port_published)
unfolding opens protocol_text ◌==◌
reconcile_ports-status_example =
    reconcile_ports-status true (λ p. true) on_port ports (pos 8443) (refl, tt)

serve-AllUnreserved_example :
    All
      (IsUnreserved same_case config)
      (serve env config options
        (codes "Bearer admin")
        (admin (post_route (some web_route)))
        (record state { db = record after_create { routes = shared } })).1.db.routes
serve-AllUnreserved_example =
    serve-AllUnreserved env same_case-IsLowerTable config options
      (record state { db = record after_create { routes = shared } }) (codes "Bearer admin")
      (admin (post_route (some web_route))) shared-IsUnreserved

-- A store without rows, the agent that enrolls, and a route on the host of the console.
abbrev fresh : State ℕ
fresh = record state { db = empty_db }

abbrev issued : State ℕ
issued = (serve env config options (codes "Bearer admin") (admin (post_token none)) fresh).1

abbrev enrolling : EnrollRequest
enrolling = record { token = codes "t2"; name = codes "home"; request_id = []; agent_token = [] }

abbrev enrolled : State ℕ
enrolled = (serve env config options [] (enroll (some enrolling)) issued).1

abbrev published : State ℕ
published =
    (serve env config options (codes "Bearer admin")
      (admin (post_route (some (record web_route { client_id = codes "r2"; domain = console }))))
      enrolled).1

published_run : map (λ q. q.domain) published.db.routes ≡ console ∷ []
unfolding serve is_admin serve_admin handle_issue_token issue_with issue_enrollment_token
    issued_token handle_enroll valid_agent_name enrolled_response consume_enrollment_token
    handle_create_route refuse_route route_uses_reserved_domain validate_route_publication saved
    create_route validate trim_space normalize_dns_host normalize_path_prefix valid_host
    normalize_host bump_desired_revision allocate_port public_port_available insert_route ◌+ℤ◌
published_run = refl

Served-route_https_example :
    route_https no_digest handler same_case clock router (some (list_routes published.db)) incoming
    ≡ from_control
unfolding normalize_host ◌==◌ has_prefix
Served-route_https_example =
    Served-route_https same_case same_case-IsLowerTable config options no_digest handler clock
      (codes ":443") router published incoming
      (answered env _ _ refl refl
        (answered env _ _ refl refl (answered env _ _ refl refl (initial refl))))
      router_run refl refl refl refl
