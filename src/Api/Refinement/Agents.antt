-- ===== src/Api/Refinement/Agents.antt =====
-- The handlers of tokens and agents refine the steps of the store.
use portloom.Api.{EnrollRequest, HeartbeatRequest, ObservedRequest, Response, State, TokenRequest}
use portloom.Api.Agents.{
  bound_key, claimed_response, enrolled_response, handle_enroll, handle_heartbeat,
  handle_issue_token, handle_observed, handle_register_key, heard, issue_with, issued_token,
  observation_of, register_key, requested_ttl, sync_keys,
}
use portloom.Api.Config.{Config, Env}
use portloom.Api.Refinement.{Refines, Stands, Takes, stays, steps}
use portloom.Authorizedkeys.{normalize}
use portloom.Domain.Agent.{Agent, AgentSshKey, Time, valid_agent_name}
use portloom.Prelude.{
  Bool, List, Option, Text, [], bool_eq, false, if◌then◌else◌, map, none, not, refl, some, true, ℤ,
  ◌==◌, ◌≡◌,
}
use portloom.Store.Db.{Db, Options, Result, err, ok}
use portloom.Store.Enrollment.{
  claim_enrollment_token, consume_enrollment_token, issue_enrollment_token,
}
use portloom.Store.Heartbeat.{heartbeat}
use portloom.Store.Invariant.Reach.{claim, consume, issue, observe, set_key}
use portloom.Store.SshKeys.{bind_agent_ssh_key_and_sync, set_agent_ssh_key, synced_after}

module _ {S : Type 0} (env : Env) (config : Config) (options : Options) (s : State S) where
  issued_token-Refines :
      (ttl : ℤ) (result : Result (Text × Time × Db))
      → issue_enrollment_token env.hash_token env.now env.random_token ttl s.db ≡ result
      → Stands env options s (issued_token env config s result)
  unfolding issued_token
  issued_token-Refines ttl (err e) done = stays refl
  issued_token-Refines ttl (ok (token, expires_at, db')) done =
      steps (issue env.now env.random_token ttl (token, expires_at) done)

  issue_with-Refines : (ttl : Option ℤ) → Stands env options s (issue_with env config ttl s)
  unfolding issue_with
  issue_with-Refines none = stays refl
  issue_with-Refines (some ttl) =
      issued_token-Refines ttl
        (issue_enrollment_token env.hash_token env.now env.random_token ttl s.db) refl

  pub handle_issue_token-Refines :
      (body : Option (Option TokenRequest))
      → Stands env options s (handle_issue_token env config body s)
  unfolding handle_issue_token
  handle_issue_token-Refines none = issue_with-Refines (some config.enrollment_ttl)
  handle_issue_token-Refines (some none) = stays refl
  handle_issue_token-Refines (some (some request)) =
      issue_with-Refines
        (requested_ttl config.enrollment_ttl request.expires_in request.expires_in_seconds)

  claimed_response-Refines :
      (result : Result (Agent × Db))
      → ((a : Agent) (db' : Db) → result ≡ ok (a, db') → Takes env options s db')
      → Stands env options s (claimed_response env config s result)
  unfolding claimed_response
  claimed_response-Refines (err e) step = stays refl
  claimed_response-Refines (ok (a, db')) step = steps (step a db' refl)

  enrolled_response-Refines :
      (result : Result (Agent × Text × Db))
      → ((a : Agent) (token : Text) (db' : Db)
          → result ≡ ok (a, token, db')
          → Takes env options s db')
      → Stands env options s (enrolled_response env config s result)
  unfolding enrolled_response
  enrolled_response-Refines (err e) step = stays refl
  enrolled_response-Refines (ok (a, token, db')) step = steps (step a token db' refl)

  if-Refines :
      (b : Bool) (x y : Response S × State S)
      → Stands env options s x
      → Stands env options s y
      → Stands env options s (if b then x else y)
  if-Refines true x y p q = p
  if-Refines false x y p q = q

  pub handle_enroll-Refines :
      (body : Option EnrollRequest) → Stands env options s (handle_enroll env config body s)
  unfolding handle_enroll
  handle_enroll-Refines none = stays refl
  handle_enroll-Refines (some r) = if-Refines (not (valid_agent_name r.name)) _ _ (stays refl) (
      if-Refines (not (bool_eq (r.request_id == []) (r.agent_token == []))) _ _ (stays refl) (
        if-Refines (not (r.request_id == [])) _ _
          (claimed_response-Refines
            (claim_enrollment_token env.hash_token env.now env.random_id r.token r.name r.request_id
              r.agent_token s.db)
            (λ a db' done.
              claim env.now env.random_id r.token r.name r.request_id r.agent_token a done))
          (enrolled_response-Refines
            (consume_enrollment_token env.hash_token env.now env.random_token env.random_id r.token
              r.name s.db)
            (λ a t db' done.
              consume env.now env.random_token env.random_id r.token r.name a t done))))

  bound_key-Refines :
      (result : Result (List AgentSshKey)) (db' : Db)
      → Refines env options s.db db'
      → Stands env options s (bound_key env config s (result, db'))
  unfolding bound_key
  bound_key-Refines (err e) db' step = step
  bound_key-Refines (ok bound) db' step = step

  synced_after-Refines :
      (sync : List AgentSshKey → Bool) (result : Result Db)
      → ((db' : Db) → result ≡ ok db' → Takes env options s db')
      → Refines env options s.db (synced_after sync s.db result).1
  unfolding synced_after
  synced_after-Refines sync (err e) step = stays refl
  synced_after-Refines sync (ok db') step = steps (step db' refl)

  register_key-Refines :
      (a : Agent) (key : Option Text) → Stands env options s (register_key env config a s key)
  unfolding register_key bind_agent_ssh_key_and_sync
  register_key-Refines a none = stays refl
  register_key-Refines a (some key) =
      let result =
        synced_after (sync_keys env config) s.db (set_agent_ssh_key env.now a.id key s.db) in
      bound_key-Refines result.0 result.1 (
        synced_after-Refines (sync_keys env config) (set_agent_ssh_key env.now a.id key s.db)
          (λ db' done. set_key env.now a.id key done))

  pub handle_register_key-Refines :
      (a : Agent) (body : Option Text)
      → Stands env options s (handle_register_key env config a body s)
  unfolding handle_register_key
  handle_register_key-Refines a none = if-Refines _ _ _ (stays refl) (stays refl)
  handle_register_key-Refines a (some public_key) =
      if-Refines _ _ _ (stays refl) (register_key-Refines a (normalize public_key))

  heard-Refines :
      (a : Agent) (revision : ℤ) (reported : Option S) (result : Result Db)
      → ((db' : Db) → result ≡ ok db' → Takes env options s db')
      → Stands env options s (heard env config a revision reported s result)
  unfolding heard
  heard-Refines a revision reported (err e) step = stays refl
  heard-Refines a revision reported (ok db') step = steps (step db' refl)

  pub handle_heartbeat-Refines :
      (a : Agent) (body : Option (HeartbeatRequest S))
      → Stands env options s (handle_heartbeat env config a body s)
  unfolding handle_heartbeat
  handle_heartbeat-Refines a none = stays refl
  handle_heartbeat-Refines a (some r) =
      heard-Refines a r.observed_revision r.system
        (heartbeat env.now a.id r.observed_revision r.routes s.db)
        (λ db' done. observe env.now a.id r.observed_revision r.routes done)

  pub handle_observed-Refines :
      (a : Agent) (body : Option (ObservedRequest S))
      → Stands env options s (handle_observed env config a body s)
  unfolding handle_observed
  handle_observed-Refines a none = stays refl
  handle_observed-Refines a (some r) =
      let os = map (observation_of r.revision) r.routes in
      heard-Refines a r.revision r.system (heartbeat env.now a.id r.revision os s.db)
        (λ db' done. observe env.now a.id r.revision os done)
