-- ===== src/Edge/Management/Served.antt =====
-- The requests to the API keep the routes of the store off the paths of the console.
use portloom.Api.{
  AdminCall, AgentCall, Call, EnrollRequest, Response, State, TokenRequest, admin, agent,
  delete_one_route, delete_token, enroll, get_clients, get_metrics, get_one_route, get_routes,
  get_sync, get_system, get_tokens, post_heartbeat, post_observed, post_route, post_token,
  put_route, put_ssh_key,
}
use portloom.Api.Agents.{
  bound_key, claimed_response, enrolled_response, handle_delete_token, handle_enroll,
  handle_heartbeat, handle_issue_token, handle_observed, handle_register_key, heard, issue_with,
  issued_token, observation_of, register_key, requested_ttl, sync_keys,
}
use portloom.Api.Config.{Config, Env, bearer_token, deleted, unauthorized}
use portloom.Api.Routes.{
  handle_create_route, handle_delete_route, handle_update_route, refuse_route,
  route_uses_reserved_domain, saved, validate_route_publication,
}
use portloom.Api.Serve.{serve, serve_admin, serve_agent, serve_authenticated}
use portloom.Authorizedkeys.{normalize}
use portloom.Domain.Agent.{Agent, AgentSshKey, RouteObservation, Time, valid_agent_name}
use portloom.Domain.Route.{Route}
use portloom.Edge.Management.{IsUnreserved}
use portloom.Edge.Management.Kept.{
  AllUnreserved, create_route-AllUnreserved, delete_route-AllUnreserved, heartbeat-AllUnreserved,
  update_route-AllUnreserved,
}
use portloom.Edge.Management.Stored.{
  claim-routes, consume-routes, delete_token-routes, issue-routes, set_key-routes,
}
use portloom.Edge.Ports.Reconciled.{reported}
use portloom.Prelude.{
  All, Bool, List, Option, Text, [], bool_eq, codes, false, if◌then◌else◌, map, none, not, refl,
  some, subst, sym, true, ℕ, ℤ, ◌==◌, ◌≡◌,
}
use portloom.Store.Db.{Db, Options, Result, err, ok}
use portloom.Store.Enrollment.{authenticate_agent, issue_enrollment_token}
use portloom.Store.Heartbeat.{heartbeat}
use portloom.Store.Routes.{create_route, update_route}
use portloom.Store.SshKeys.{bind_agent_ssh_key_and_sync, set_agent_ssh_key, synced_after}
use portloom.Strings.Laws.{IsLowerTable}

if_some-false :
    (b : Bool) (t : Text) (o : Option Text) → (if b then some t else o) ≡ none → b ≡ false
if_some-false true t o h = cc
if_some-false false t o h = refl

refuse_route-none :
    (env : Env) (config : Config) (route : Route)
    → refuse_route env config route ≡ none
    → route_uses_reserved_domain env.unicode_lower config route ≡ false
unfolding refuse_route
refuse_route-none env config route h =
    if_some-false (route_uses_reserved_domain env.unicode_lower config route)
      (codes "reserved_domain") (validate_route_publication config route) h

module _ {S : Type 0} (env : Env) (table : IsLowerTable env.unicode_lower) (config : Config)
    (options : Options) (s : State S) where
  abbrev Held : Db → Type 0
  Held db = AllUnreserved env.unicode_lower table config db

  abbrev Keeps : Response S × State S → Type 0
  Keeps result = Held result.1.db

  same-Held : (db db' : Db) → db'.routes ≡ db.routes → Held db → Held db'
  same-Held db db' same held = subst (All (IsUnreserved env.unicode_lower config)) (sym same) held

  saved-Keeps :
      (status : ℕ) (code : Option Text) (result : Result (Route × Db))
      → ((row : Route) (db' : Db) → code ≡ none → result ≡ ok (row, db') → Held db')
      → Held s.db
      → Keeps (saved env config options status code result s)
  unfolding saved
  saved-Keeps status (some code) result step held = held
  saved-Keeps status none (err e) step held = held
  saved-Keeps status none (ok (row, db')) step held = step row db' refl refl

  deleted-Keeps :
      (result : Result Db)
      → ((db' : Db) → result ≡ ok db' → Held db')
      → Held s.db
      → Keeps (deleted s result)
  unfolding deleted
  deleted-Keeps (err e) step held = held
  deleted-Keeps (ok db') step held = step db' refl

  issued_token-Keeps :
      (ttl : ℤ) (result : Result (Text × Time × Db))
      → issue_enrollment_token env.hash_token env.now env.random_token ttl s.db ≡ result
      → Held s.db
      → Keeps (issued_token env config s result)
  unfolding issued_token
  issued_token-Keeps ttl (err e) done held = held
  issued_token-Keeps ttl (ok (token, expires_at, db')) done held =
      same-Held s.db db'
        (issue-routes env.hash_token env.now env.random_token ttl s.db token expires_at db' done)
        held

  issue_with-Keeps : (ttl : Option ℤ) → Held s.db → Keeps (issue_with env config ttl s)
  unfolding issue_with
  issue_with-Keeps none held = held
  issue_with-Keeps (some ttl) held =
      issued_token-Keeps ttl
        (issue_enrollment_token env.hash_token env.now env.random_token ttl s.db) refl held

  handle_issue_token-Keeps :
      (body : Option (Option TokenRequest))
      → Held s.db
      → Keeps (handle_issue_token env config body s)
  unfolding handle_issue_token
  handle_issue_token-Keeps none held = issue_with-Keeps (some config.enrollment_ttl) held
  handle_issue_token-Keeps (some none) held = held
  handle_issue_token-Keeps (some (some request)) held =
      issue_with-Keeps
        (requested_ttl config.enrollment_ttl request.expires_in request.expires_in_seconds) held

  if-Keeps :
      (b : Bool) (x y : Response S × State S) → Keeps x → Keeps y → Keeps (if b then x else y)
  if-Keeps true x y p q = p
  if-Keeps false x y p q = q

  claimed_response-Keeps :
      (result : Result (Agent × Db))
      → ((a : Agent) (db' : Db) → result ≡ ok (a, db') → Held db')
      → Held s.db
      → Keeps (claimed_response env config s result)
  unfolding claimed_response
  claimed_response-Keeps (err e) step held = held
  claimed_response-Keeps (ok (a, db')) step held = step a db' refl

  enrolled_response-Keeps :
      (result : Result (Agent × Text × Db))
      → ((a : Agent) (token : Text) (db' : Db) → result ≡ ok (a, token, db') → Held db')
      → Held s.db
      → Keeps (enrolled_response env config s result)
  unfolding enrolled_response
  enrolled_response-Keeps (err e) step held = held
  enrolled_response-Keeps (ok (a, token, db')) step held = step a token db' refl

  handle_enroll-Keeps :
      (body : Option EnrollRequest) → Held s.db → Keeps (handle_enroll env config body s)
  unfolding handle_enroll
  handle_enroll-Keeps none held = held
  handle_enroll-Keeps (some r) held = if-Keeps (not (valid_agent_name r.name)) _ _ held (
      if-Keeps (not (bool_eq (r.request_id == []) (r.agent_token == []))) _ _ held (
        if-Keeps (not (r.request_id == [])) _ _
          (claimed_response-Keeps _
            (λ a db' done.
              same-Held s.db db'
                (claim-routes env.hash_token env.now env.random_id r.token r.name r.request_id
                  r.agent_token s.db a db' done)
                held)
            held)
          (enrolled_response-Keeps _
            (λ a t db' done.
              same-Held s.db db'
                (consume-routes env.hash_token env.now env.random_token env.random_id r.token r.name
                  s.db a t db' done)
                held)
            held)))

  synced_after-Keeps :
      (sync : List AgentSshKey → Bool) (result : Result Db)
      → ((db' : Db) → result ≡ ok db' → Held db')
      → Held s.db
      → Held (synced_after sync s.db result).1
  unfolding synced_after
  synced_after-Keeps sync (err e) step held = held
  synced_after-Keeps sync (ok db') step held = step db' refl

  bound_key-Keeps :
      (result : Result (List AgentSshKey)) (db' : Db)
      → Held db'
      → Keeps (bound_key env config s (result, db'))
  unfolding bound_key
  bound_key-Keeps (err e) db' held = held
  bound_key-Keeps (ok bound) db' held = held

  register_key-Keeps :
      (a : Agent) (key : Option Text) → Held s.db → Keeps (register_key env config a s key)
  unfolding register_key bind_agent_ssh_key_and_sync
  register_key-Keeps a none held = held
  register_key-Keeps a (some key) held =
      let bound = set_agent_ssh_key env.now a.id key s.db in
      let result = synced_after (sync_keys env config) s.db bound in
      bound_key-Keeps result.0 result.1 (
        synced_after-Keeps (sync_keys env config) bound
          (λ db' done. same-Held s.db db' (set_key-routes env.now a.id key s.db db' done) held)
          held)

  heard-Keeps :
      (a : Agent) (revision : ℤ) (reported : Option S) (result : Result Db)
      → ((db' : Db) → result ≡ ok db' → Held db')
      → Held s.db
      → Keeps (heard env config a revision reported s result)
  unfolding heard
  heard-Keeps a revision reported (err e) step held = held
  heard-Keeps a revision reported (ok db') step held = step db' refl

  beat-Keeps :
      (a : Agent) (revision : ℤ) (os : List RouteObservation) (reported : Option S)
      → Held s.db
      → Keeps (heard env config a revision reported s (heartbeat env.now a.id revision os s.db))
  beat-Keeps a revision os reported held =
      heard-Keeps a revision reported (heartbeat env.now a.id revision os s.db)
        (λ db' done.
          heartbeat-AllUnreserved env.unicode_lower table config env.now a.id revision os s.db db'
            done held)
        held

  serve_agent-Keeps :
      (a : Agent) (call : AgentCall S) → Held s.db → Keeps (serve_agent env config options a call s)
  unfolding serve_agent handle_register_key handle_heartbeat handle_observed
  serve_agent-Keeps a (put_ssh_key none) held = if-Keeps _ _ _ held held
  serve_agent-Keeps a (put_ssh_key (some key)) held =
      if-Keeps _ _ _ held (register_key-Keeps a (normalize key) held)
  serve_agent-Keeps a (post_heartbeat none) held = held
  serve_agent-Keeps a (post_heartbeat (some r)) held =
      beat-Keeps a r.observed_revision r.routes r.system held
  serve_agent-Keeps a get_sync held = held
  serve_agent-Keeps a (post_observed none) held = held
  serve_agent-Keeps a (post_observed (some r)) held =
      beat-Keeps a r.revision (map (observation_of r.revision) r.routes) r.system held

  serve_admin-Keeps : (call : AdminCall) → Held s.db → Keeps (serve_admin env config options call s)
  unfolding serve_admin handle_create_route handle_update_route handle_delete_route
      handle_delete_token
  serve_admin-Keeps get_system held = held
  serve_admin-Keeps get_metrics held = held
  serve_admin-Keeps get_clients held = held
  serve_admin-Keeps get_tokens held = held
  serve_admin-Keeps get_routes held = held
  serve_admin-Keeps (post_token body) held = handle_issue_token-Keeps body held
  serve_admin-Keeps (delete_token id) held =
      deleted-Keeps _ (λ db' done. same-Held s.db db' (delete_token-routes id s.db db' done) held)
        held
  serve_admin-Keeps (post_route none) held = held
  serve_admin-Keeps (post_route (some route)) held =
      saved-Keeps 201 (refuse_route env config route)
        (create_route env.unicode_lower env.now options env.available env.random_id route s.db)
        (λ row db' allowed done.
          create_route-AllUnreserved env.unicode_lower table config env.now options env.available
            env.random_id route s.db row db' done (refuse_route-none env config route allowed) held)
        held
  serve_admin-Keeps (get_one_route id) held = held
  serve_admin-Keeps (put_route id none) held = held
  serve_admin-Keeps (put_route id (some route)) held =
      saved-Keeps 200 (refuse_route env config route)
        (update_route env.unicode_lower env.now id route s.db)
        (λ row db' allowed done.
          update_route-AllUnreserved env.unicode_lower table config env.now id route s.db row db'
            done (refuse_route-none env config route allowed) held)
        held
  serve_admin-Keeps (delete_one_route id) held =
      deleted-Keeps _
        (λ db' done.
          delete_route-AllUnreserved env.unicode_lower table config env.now id s.db db' done held)
        held

  serve_authenticated-Keeps :
      (call : AgentCall S) (found : Result Agent)
      → Held s.db
      → Keeps (serve_authenticated env config options call found s)
  unfolding serve_authenticated
  serve_authenticated-Keeps call (err e) held = held
  serve_authenticated-Keeps call (ok a) held = serve_agent-Keeps a call held

  -- Where no route of the store claims a path of the console, none does after any request to the
  -- API, whoever makes it.
  pub serve-AllUnreserved :
      (authorization : Text) (call : Call S)
      → All (IsUnreserved env.unicode_lower config) s.db.routes
      → All
          (IsUnreserved env.unicode_lower config)
          (serve env config options authorization call s).1.db.routes
  unfolding serve
  serve-AllUnreserved authorization (admin call) held =
      if-Keeps _ _ _ (serve_admin-Keeps call held) held
  serve-AllUnreserved authorization (agent call) held =
      let found = authenticate_agent env.hash_token (bearer_token authorization) s.db in
      if-Keeps (bearer_token authorization == []) (unauthorized, s)
        (serve_authenticated env config options call found s) held
        (serve_authenticated-Keeps call found held)
  serve-AllUnreserved authorization (enroll body) held = handle_enroll-Keeps body held
