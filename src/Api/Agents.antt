-- ===== src/Api/Agents.antt =====
-- internal/api/api.go and metrics.go: the handlers of tokens and agents.
use portloom.Api.{
  AgentSystem, EnrollRequest, HeartbeatRequest, ObservedRequest, ReportedRoute, Response, State,
  TokenRequest, claimed_agent, empty, enrolled_agent, issued, synced,
}
use portloom.Api.Config.{
  Config, Env, deleted, internal_error, invalid_request, max_enrollment_ttl, unauthorized,
  write_error, write_json, write_store_error,
}
use portloom.Authorizedkeys.{Entry, normalize, write_keys}
use portloom.Domain.Agent.{Agent, AgentSshKey, RouteObservation, Time, valid_agent_name}
use portloom.Domain.Route.{second}
use portloom.Maps.{map_get, map_put}
use portloom.Prelude.{
  Bool, List, Option, Text, [], bool_eq, codes, if◌then◌else◌, leb_ℤ, ltb_ℤ, map, none, not, pos,
  pos_part, some, ℤ, ◌&&◌, ◌*◌, ◌==◌,
}
use portloom.Store.Db.{Db, Result, StoreError, err, invalid_enrollment_token, ok}
use portloom.Store.Enrollment.{
  claim_enrollment_token, consume_enrollment_token, delete_enrollment_token, issue_enrollment_token,
}
use portloom.Store.Heartbeat.{heartbeat}
use portloom.Store.Routes.{sync_agent}
use portloom.Store.SshKeys.{bind_agent_ssh_key_and_sync}
use portloom.Strings.{trim_space}

-- AgentSystemStore.Record: an older revision does not replace a newer one.
module _ {S : Type 0} where
  unfoldable pub record_system :
      Time → Text → ℤ → S → List (Text × AgentSystem S) → List (Text × AgentSystem S)
  unfolding ◌==◌
  record_system now id revision stats systems =
      let entry : AgentSystem S = record {
        stats = stats;
        reported_at = now;
        revision = revision;
      } in
      elim (map_get ◌==◌ id systems) [
        | none ↦ map_put ◌==◌ id entry systems
        | some current ↦
            if ltb_ℤ revision current.revision then systems else map_put ◌==◌ id entry systems
      ]

  unfoldable pub record_reported :
      Time → Text → ℤ → Option S → List (Text × AgentSystem S) → List (Text × AgentSystem S)
  unfolding record_system
  record_reported now id revision none systems = systems
  record_reported now id revision (some stats) systems = record_system now id revision stats systems

-- The time to live that issueEnrollmentToken reads of a request, `none` for an invalid one.
abbrev pub positive_up_to : ℤ → ℤ → Bool
positive_up_to limit n = ltb_ℤ (pos 0) n && leb_ℤ n limit

abbrev pub max_ttl_seconds : ℤ
max_ttl_seconds = pos (30 * 24 * 3600)

unfoldable pub requested_ttl : ℤ → Option (Option ℤ) → Option (Option ℤ) → Option ℤ
requested_ttl default none none = some default
requested_ttl default (some e) (some n) = none
requested_ttl default (some none) none = none
requested_ttl default (some (some d)) none =
    if positive_up_to max_enrollment_ttl d then some d else none
requested_ttl default none (some none) = none
requested_ttl default none (some (some n)) =
    if positive_up_to max_ttl_seconds n then some (pos (pos_part n * second)) else none

abbrev entry_of : AgentSshKey → Entry
entry_of k = record { agent_id = k.agent_id; public_key = k.public_key }

-- The callback of registerAgentSSHKey.
abbrev pub sync_keys : Env → Config → List AgentSshKey → Bool
unfolding write_keys
sync_keys env config bound =
    write_keys env.sha256 config.managed_ssh_isolated env.replace_keys (map entry_of bound)

abbrev pub observation_of : ℤ → ReportedRoute → RouteObservation
observation_of revision r = record {
  route_id = r.route_id;
  observed_revision = revision;
  local_status = r.local_status;
  tunnel_status = r.tunnel_status;
  last_error = r.message;
}

module _ {S : Type 0} (env : Env) (config : Config) where
  unfoldable pub issued_token : State S → Result (Text × Time × Db) → Response S × State S
  issued_token s (err e) = (internal_error, s)
  issued_token s (ok (token, expires_at, db)) =
      (write_json 201 (issued token expires_at), record s { db = db })

  unfoldable pub issue_with : Option ℤ → State S → Response S × State S
  unfolding issue_enrollment_token issued_token
  issue_with none s = (write_error 400 (codes "invalid_expiry"), s)
  issue_with (some ttl) s =
      issued_token s (issue_enrollment_token env.hash_token env.now env.random_token ttl s.db)

  unfoldable pub handle_issue_token : Option (Option TokenRequest) → State S → Response S × State S
  unfolding requested_ttl issue_with
  handle_issue_token none s = issue_with (some config.enrollment_ttl) s
  handle_issue_token (some none) s = (invalid_request, s)
  handle_issue_token (some (some request)) s =
      issue_with (requested_ttl config.enrollment_ttl request.expires_in request.expires_in_seconds)
        s

  unfoldable pub handle_delete_token : Text → State S → Response S × State S
  unfolding delete_enrollment_token deleted
  handle_delete_token id s = deleted s (delete_enrollment_token id s.db)

  -- What enrollAgent answers to an error of the store.
  abbrev enroll_error : StoreError → Response S
  enroll_error invalid_enrollment_token = unauthorized
  enroll_error _ = internal_error

  unfoldable pub claimed_response : State S → Result (Agent × Db) → Response S × State S
  claimed_response s (err e) = (enroll_error e, s)
  claimed_response s (ok (a, db)) = (write_json 201 (claimed_agent a), record s { db = db })

  unfoldable pub enrolled_response : State S → Result (Agent × Text × Db) → Response S × State S
  enrolled_response s (err e) = (enroll_error e, s)
  enrolled_response s (ok (a, token, db)) =
      (write_json 201 (enrolled_agent a token), record s { db = db })

  unfoldable pub handle_enroll : Option EnrollRequest → State S → Response S × State S
  unfolding valid_agent_name claim_enrollment_token consume_enrollment_token ◌==◌ claimed_response
      enrolled_response
  handle_enroll none s = (invalid_request, s)
  handle_enroll (some r) s =
      let claim =
        claim_enrollment_token env.hash_token env.now env.random_id r.token r.name r.request_id
          r.agent_token s.db in
      let consume =
        consume_enrollment_token env.hash_token env.now env.random_token env.random_id r.token
          r.name s.db in
      if not (valid_agent_name r.name)
      then (write_error 400 (codes "invalid_agent_name"), s)
      else if not (bool_eq (r.request_id == []) (r.agent_token == []))
      then (write_error 400 (codes "incomplete_enrollment_claim"), s)
      else if not (r.request_id == [])
      then claimed_response s claim
      else enrolled_response s consume

  unfoldable pub bound_key : State S → Result (List AgentSshKey) × Db → Response S × State S
  unfolding write_store_error
  bound_key s (err e, db) = (write_store_error e, record s { db = db })
  bound_key s (ok bound, db) = (write_json 204 empty, record s { db = db })

  -- The end of registerAgentSSHKey, for a request's key as Normalize gives it.
  unfoldable pub register_key : Agent → State S → Option Text → Response S × State S
  unfolding bind_agent_ssh_key_and_sync bound_key sync_keys
  register_key a s none = (write_error 400 (codes "invalid_ssh_public_key"), s)
  register_key a s (some key) =
      bound_key s (bind_agent_ssh_key_and_sync env.now a.id key (some (sync_keys env config)) s.db)

  unfoldable pub handle_register_key : Agent → Option Text → State S → Response S × State S
  unfolding normalize trim_space ◌==◌ register_key
  handle_register_key a body s =
      if trim_space config.authorized_keys_path == []
      then (write_error 503 (codes "managed_ssh_disabled"), s)
      else elim body [
        | none ↦ (invalid_request, s)
        | some public_key ↦ register_key a s (normalize public_key)
      ]

  unfoldable pub heard : Agent → ℤ → Option S → State S → Result Db → Response S × State S
  unfolding record_reported write_store_error
  heard a revision reported s (err e) = (write_store_error e, s)
  heard a revision reported s (ok db) = (
    write_json 204 empty,
    record s { db = db; systems = record_reported env.now a.id revision reported s.systems },
  )

  unfoldable pub handle_heartbeat :
      Agent → Option (HeartbeatRequest S) → State S → Response S × State S
  unfolding heartbeat heard
  handle_heartbeat a none s = (invalid_request, s)
  handle_heartbeat a (some r) s =
      heard a r.observed_revision r.system s
        (heartbeat env.now a.id r.observed_revision r.routes s.db)

  unfoldable pub handle_observed :
      Agent → Option (ObservedRequest S) → State S → Response S × State S
  unfolding heartbeat heard
  handle_observed a none s = (invalid_request, s)
  handle_observed a (some r) s =
      heard a r.revision r.system s
        (heartbeat env.now a.id r.revision (map (observation_of r.revision) r.routes) s.db)

  unfoldable pub handle_sync : Agent → State S → Response S
  unfolding sync_agent
  handle_sync a s = elim (sync_agent a.id s.db) [
    | err e ↦ internal_error
    | ok (current, routes) ↦ write_json 200 (synced current current.desired_revision routes)
  ]
