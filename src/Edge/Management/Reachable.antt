-- ===== src/Edge/Management/Reachable.antt =====
-- The console stays within reach, whatever the API was asked before.
-- The states that a server comes to by the requests to its API, from a store without rows. Its
-- configuration stays; the clock, the random source and the operating system may change.
use portloom.Api.{Call, State}
use portloom.Api.Config.{Config, Env}
use portloom.Api.Serve.{serve}
use portloom.Domain.Agent.{Time}
use portloom.Domain.Host.{normalize_host}
use portloom.Domain.Route.{Route}
use portloom.Edge.{
  Incoming, Router, from_control, management_max_body_bytes, new_router, route_https,
}
use portloom.Edge.Management.{IsUnreserved, is_management_path}
use portloom.Edge.Management.Reaches.{route_https-management}
use portloom.Edge.Management.Served.{serve-AllUnreserved}
use portloom.Edge.Management.Stored.{IsUnreserved-same}
use portloom.Edge.Ports.Reconciled.{served}
use portloom.Gateway.{Handler}
use portloom.Prelude.{
  All, List, Text, [], false, ltb_ℤ, map, refl, some, subst, sym, true, ℕ, ◌∷◌, ◌≡◌,
}
use portloom.Store.Db.{Db, Options, empty_db}
use portloom.Store.Routes.{list_routes, scan_route}
use portloom.Strings.Laws.{IsLowerTable}

pub data Served {S : Type 0} (unicode_lower : ℕ → ℕ) (config : Config) (options : Options)
    : State S → Type 0 where
  initial : {s : State S} → s.db ≡ empty_db → Served unicode_lower config options s
  answered :
      {s s' : State S} (env : Env) (authorization : Text) (call : Call S)
      → env.unicode_lower ≡ unicode_lower
      → (serve env config options authorization call s).1 ≡ s'
      → Served unicode_lower config options s
      → Served unicode_lower config options s'

scan_route-AllUnreserved :
    (unicode_lower : ℕ → ℕ) (config : Config) (db : Db) (routes : List Route)
    → All (IsUnreserved unicode_lower config) routes
    → All (IsUnreserved unicode_lower config) (map (scan_route db) routes)
unfolding scan_route
scan_route-AllUnreserved unicode_lower config db [] held = tt
scan_route-AllUnreserved unicode_lower config db (r ∷ routes) (free, held) = (
  IsUnreserved-same unicode_lower config r (scan_route db r) refl refl refl refl free,
  scan_route-AllUnreserved unicode_lower config db routes held,
)

module _ {S : Type 0} (unicode_lower : ℕ → ℕ) (table : IsLowerTable unicode_lower) (config : Config)
    (options : Options) where
  Served-AllUnreserved :
      {s : State S}
      → Served unicode_lower config options s
      → All (IsUnreserved unicode_lower config) s.db.routes
  Served-AllUnreserved (initial e) =
      subst (λ db. All (IsUnreserved unicode_lower config) db.routes) (sym e) tt
  Served-AllUnreserved (answered {s} env authorization call lower run before) =
      let kept : All (IsUnreserved env.unicode_lower config)
          (serve env config options authorization call s).1.db.routes =
        serve-AllUnreserved env (subst IsLowerTable (sym lower) table) config options s
          authorization call
          (subst (λ u. All (IsUnreserved u config) s.db.routes) (sym lower)
            (Served-AllUnreserved before)) in
      subst (λ t. All (IsUnreserved unicode_lower config) t.db.routes) run
        (subst
          (λ u.
            All (IsUnreserved u config) (serve env config options authorization call s).1.db.routes)
          lower kept)

  -- Whatever requests to the API were served since the store was empty, a request for the root of
  -- the public host or a path below /api, /assets or /healthz reaches the control plane, if its
  -- connection takes the deadlines and its body is not longer than a mebibyte.
  pub Served-route_https :
      (sha256 : Text → List ℕ) (h : Handler) (now : Time) (https_addr : Text) (router : Router)
      (s : State S) (r : Incoming)
      → Served unicode_lower config options s
      → new_router unicode_lower config.public_host https_addr ≡ some router
      → normalize_host unicode_lower r.request.host
        ≡ normalize_host unicode_lower config.public_host
      → is_management_path unicode_lower config r.request.path ≡ true
      → r.deadlines_set ≡ true
      → ltb_ℤ management_max_body_bytes r.content_length ≡ false
      → route_https sha256 h unicode_lower now router (some (list_routes s.db)) r ≡ from_control
  unfolding list_routes
  Served-route_https sha256 h now https_addr router s r served built =
      route_https-management sha256 h unicode_lower now config https_addr router (list_routes s.db)
        r built
        (scan_route-AllUnreserved unicode_lower config s.db s.db.routes
          (Served-AllUnreserved served))
