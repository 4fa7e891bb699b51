-- ===== src/Api/Serve.antt =====
-- internal/api/api.go: who may call a handler, and the handler that a request reaches.
use portloom.Api.{
  AdminCall, AgentCall, Call, Response, State, admin, agent, clients, delete_one_route,
  delete_token, enroll, get_clients, get_metrics, get_one_route, get_routes, get_sync, get_system,
  get_tokens, measured, post_heartbeat, post_observed, post_route, post_token, put_route,
  put_ssh_key, system, tokens,
}
use portloom.Api.Agents.{
  handle_delete_token, handle_enroll, handle_heartbeat, handle_issue_token, handle_observed,
  handle_register_key, handle_sync,
}
use portloom.Api.Config.{
  Config, Env, bearer_token, internal_error, is_admin, unauthorized, write_json,
}
use portloom.Api.Routes.{
  handle_create_route, handle_delete_route, handle_get_route, handle_list_routes,
  handle_update_route,
}
use portloom.Authorizedkeys.{normalize}
use portloom.Domain.Agent.{Agent}
use portloom.Prelude.{Option, Text, [], if◌then◌else◌, none, some, ℤ, ◌==◌, ◌||◌}
use portloom.Store.Db.{Options, Result, err, ok}
use portloom.Store.Enrollment.{authenticate_agent, list_agents, list_enrollment_tokens}
use portloom.Strings.{trim_space}

module _ {S : Type 0} (env : Env) (config : Config) (options : Options) where
  -- readSSHHostPublicKey and systemInfo: `host_key` is what the file holds, if it can be read.
  unfoldable pub handle_system_info : Response S
  unfolding trim_space normalize ◌==◌
  handle_system_info =
      let tcp_host = if config.tcp_enabled then some config.tcp_bind_host else none in
      let info : Option (ℤ × Text) → Response S = λ managed. write_json 200 (
        system config.server_version config.udp_enabled config.web_ports_enabled managed
          tcp_host) in
      if trim_space config.authorized_keys_path == []
        || trim_space config.ssh_host_public_key_path == []
      then info none
      else elim env.host_key [
        | none ↦ internal_error
        | some text ↦ elim (normalize (trim_space text)) [
          | none ↦ internal_error
          | some key ↦ info (some (config.managed_ssh_port, key))
        ]
      ]

  unfoldable pub serve_admin : AdminCall → State S → Response S × State S
  unfolding handle_system_info list_agents list_enrollment_tokens handle_issue_token
      handle_delete_token handle_list_routes handle_create_route handle_get_route
      handle_update_route handle_delete_route
  serve_admin get_system s = (handle_system_info, s)
  serve_admin get_metrics s = (write_json 200 (measured s.traffic s.server_stats s.systems), s)
  serve_admin get_clients s = (write_json 200 (clients (list_agents s.db)), s)
  serve_admin get_tokens s = (write_json 200 (tokens (list_enrollment_tokens env.now s.db)), s)
  serve_admin get_routes s = (handle_list_routes env config options s, s)
  serve_admin (post_token body) s = handle_issue_token env config body s
  serve_admin (delete_token id) s = handle_delete_token env config id s
  serve_admin (post_route body) s = handle_create_route env config options body s
  serve_admin (get_one_route id) s = (handle_get_route env config options id s, s)
  serve_admin (put_route id body) s = handle_update_route env config options id body s
  serve_admin (delete_one_route id) s = handle_delete_route env config options id s

  unfoldable pub serve_agent : Agent → AgentCall S → State S → Response S × State S
  unfolding handle_register_key handle_heartbeat handle_sync handle_observed
  serve_agent a (put_ssh_key body) s = handle_register_key env config a body s
  serve_agent a (post_heartbeat body) s = handle_heartbeat env config a body s
  serve_agent a get_sync s = (handle_sync env config a s, s)
  serve_agent a (post_observed body) s = handle_observed env config a body s

  -- The end of agent, for the agent that the token belongs to.
  unfoldable pub serve_authenticated : AgentCall S → Result Agent → State S → Response S × State S
  unfolding serve_agent
  serve_authenticated call (err e) s = (unauthorized, s)
  serve_authenticated call (ok a) s = serve_agent a call s

  -- The handler behind admin, agent or neither, for the value of the Authorization header.
  unfoldable pub serve : Text → Call S → State S → Response S × State S
  unfolding is_admin bearer_token authenticate_agent serve_admin serve_authenticated handle_enroll
      ◌==◌
  serve authorization (admin call) s =
      let result = serve_admin call s in
      if is_admin env config authorization then result else (unauthorized, s)
  serve authorization (agent call) s =
      let token = bearer_token authorization in
      if token == []
      then (unauthorized, s)
      else serve_authenticated call (authenticate_agent env.hash_token token s.db) s
  serve authorization (enroll body) s = handle_enroll env config body s
