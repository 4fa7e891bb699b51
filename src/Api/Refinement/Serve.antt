-- ===== src/Api/Refinement/Serve.antt =====
-- Every request refines the steps of the store.
use portloom.Api.{
  AdminCall, AgentCall, Call, Response, State, admin, agent, delete_one_route, delete_token, enroll,
  get_clients, get_metrics, get_one_route, get_routes, get_sync, get_system, get_tokens,
  post_heartbeat, post_observed, post_route, post_token, put_route, put_ssh_key,
}
use portloom.Api.Config.{Config, Env}
use portloom.Api.Refinement.{Refines, Stands, stays}
use portloom.Api.Refinement.Agents.{
  handle_enroll-Refines, handle_heartbeat-Refines, handle_issue_token-Refines,
  handle_observed-Refines, handle_register_key-Refines,
}
use portloom.Api.Refinement.Routes.{
  handle_create_route-Refines, handle_delete_route-Refines, handle_delete_token-Refines,
  handle_update_route-Refines,
}
use portloom.Api.Serve.{serve, serve_admin, serve_agent, serve_authenticated}
use portloom.Domain.Agent.{Agent}
use portloom.Prelude.{Bool, Text, [], false, if◌then◌else◌, refl, some, true, ◌≢◌}
use portloom.Store.Db.{Options, Result, err, ok}

module _ {S : Type 0} (env : Env) (config : Config) (options : Options) (s : State S) where
  pub serve_admin-Refines :
      (call : AdminCall)
      → env.random_id ≢ some []
      → Stands env options s (serve_admin env config options call s)
  unfolding serve_admin
  serve_admin-Refines get_system named = stays refl
  serve_admin-Refines get_metrics named = stays refl
  serve_admin-Refines get_clients named = stays refl
  serve_admin-Refines get_tokens named = stays refl
  serve_admin-Refines get_routes named = stays refl
  serve_admin-Refines (post_token body) named = handle_issue_token-Refines env config options s body
  serve_admin-Refines (delete_token id) named = handle_delete_token-Refines env config options s id
  serve_admin-Refines (post_route body) named =
      handle_create_route-Refines env config options s body named
  serve_admin-Refines (get_one_route id) named = stays refl
  serve_admin-Refines (put_route id body) named =
      handle_update_route-Refines env config options s id body
  serve_admin-Refines (delete_one_route id) named =
      handle_delete_route-Refines env config options s id

  pub serve_agent-Refines :
      (a : Agent) (call : AgentCall S)
      → Stands env options s (serve_agent env config options a call s)
  unfolding serve_agent
  serve_agent-Refines a (put_ssh_key body) = handle_register_key-Refines env config options s a body
  serve_agent-Refines a (post_heartbeat body) = handle_heartbeat-Refines env config options s a body
  serve_agent-Refines a get_sync = stays refl
  serve_agent-Refines a (post_observed body) = handle_observed-Refines env config options s a body

  if-Refines :
      (b : Bool) (x y : Response S × State S)
      → Stands env options s x
      → Stands env options s y
      → Stands env options s (if b then x else y)
  if-Refines true x y p q = p
  if-Refines false x y p q = q

  pub serve_authenticated-Refines :
      (call : AgentCall S) (found : Result Agent)
      → Stands env options s (serve_authenticated env config options call found s)
  unfolding serve_authenticated
  serve_authenticated-Refines call (err e) = stays refl
  serve_authenticated-Refines call (ok a) = serve_agent-Refines a call

  -- Whatever a request is and whoever sends it, the database stays as it is or takes one step of the
  -- store, if the random source names new rows by texts that are not empty.
  pub serve-Refines :
      (authorization : Text) (call : Call S)
      → env.random_id ≢ some []
      → Refines env options s.db (serve env config options authorization call s).1.db
  unfolding serve
  serve-Refines authorization (admin call) named =
      if-Refines _ _ _ (serve_admin-Refines call named) (stays refl)
  serve-Refines authorization (agent call) named =
      if-Refines _ _ _ (stays refl) (serve_authenticated-Refines call _)
  serve-Refines authorization (enroll body) named = handle_enroll-Refines env config options s body
