-- ===== src/Api/Isolation.antt =====
-- What a request of an agent leaves alone: the rows of the others.
use portloom.Api.{AgentCall, Response, State, get_sync, post_heartbeat, post_observed, put_ssh_key}
use portloom.Api.Agents.{
  bound_key, handle_heartbeat, handle_observed, handle_register_key, heard, observation_of,
  register_key, sync_keys,
}
use portloom.Api.Config.{Config, Env}
use portloom.Api.Serve.{serve_agent}
use portloom.Authorizedkeys.{normalize}
use portloom.Domain.Agent.{Agent, AgentSshKey, RouteObservation, Time}
use portloom.Domain.Route.{Route, trimmed}
use portloom.Prelude.{
  Bool, Bool-cases, List, Option, Text, [], any, ap, arith, false, if◌then◌else◌, inl, inr, keep,
  map, none, not, refl, some, subst, sym, true, ℤ, ◌==◌, ◌||◌, ◌∙◌, ◌∷◌, ◌≡◌,
}
use portloom.Store.Db.{Db, Options, Result, agent_with_id, err, ok, update_where}
use portloom.Store.Heartbeat.{heartbeat, is_target, observe_routes, observed_row, seen}
use portloom.Store.Invariant.Heartbeat.{heartbeat-Accepted}
use portloom.Store.Invariant.Others.{refused-same}
use portloom.Store.SshKeys.{
  bind_agent_ssh_key_and_sync, bind_key, can_bind, set_agent_ssh_key, synced_after,
}
use portloom.Strings.{trim_space}

-- Everything in the database but the rows of one agent and of its routes.
pub record Isolated (id : Text) (db db' : Db) : Type 0 where
  pub tokens : db'.tokens ≡ db.tokens
  pub agents : keep (λ a. not (a.id == id)) db'.agents ≡ keep (λ a. not (a.id == id)) db.agents
  pub routes :
      keep (λ r. not (r.client_id == id)) db'.routes ≡ keep (λ r. not (r.client_id == id)) db.routes

keep-update_where :
    {A : Type 0} (q p : A → Bool) (f : A → A) (l : List A)
    → ((x : A) → p x ≡ true → (q x ≡ false) × (q (f x) ≡ false))
    → keep q (update_where p f l) ≡ keep q l
keep-update_where q p f [] rest = refl
keep-update_where q p f (x ∷ l) rest = elim (Bool-cases (p x)) [
  | inl e ↦ let (h, k) = rest x e in rw (e, h, k) (keep-update_where q p f l rest)
  | inr e ↦ elim (Bool-cases (q x)) [
    | inl h ↦ rw (e, h) (ap (x ∷◌) (keep-update_where q p f l rest))
    | inr h ↦ rw (e, h) (keep-update_where q p f l rest)
  ]
]

keep-observe_routes :
    (id : Text) (now : Time) (os : List RouteObservation) (l : List Route)
    → keep (λ r. not (r.client_id == id)) (observe_routes id now os l)
      ≡ keep (λ r. not (r.client_id == id)) l
unfolding observe_routes
keep-observe_routes id now [] l = refl
keep-observe_routes id now (o ∷ os) l =
    keep-observe_routes id now os (update_where (is_target id o) (observed_row o now) l)
    ∙ keep-update_where (λ r. not (r.client_id == id)) (is_target id o) (observed_row o now) l
        (λ r e. ground arith)

Isolated-refl : (id : Text) (db : Db) → Isolated id db db
Isolated-refl id db = record { tokens = refl; agents = refl; routes = refl }

heartbeat-Isolated :
    (now : Time) (id : Text) (observed : ℤ) (os : List RouteObservation) (db db' : Db)
    → heartbeat now id observed os db ≡ ok db'
    → Isolated id db db'
heartbeat-Isolated now id observed os db db' done =
    let accepted = heartbeat-Accepted now id observed os db db' done in
    subst (Isolated id db) (sym accepted.result) (record {
      tokens = refl;
      agents =
          keep-update_where (λ a. not (a.id == id)) (λ a. a.id == id) (seen observed now) db.agents
            (λ a e. (rw e refl, rw e refl));
      routes = keep-observe_routes id now os db.routes;
    })

set_agent_ssh_key-Isolated :
    (now : Time) (id key : Text) (db db' : Db)
    → trim_space id ≡ id
    → set_agent_ssh_key now id key db ≡ ok db'
    → Isolated id db db'
unfolding set_agent_ssh_key
set_agent_ssh_key-Isolated now id raw_key db db' trimmed done =
    let key = trim_space raw_key in
    let f = bind_key key now in
    elim (Bool-cases (trim_space id == [] || key == [])) [
      | inl bad ↦ absurd (ground arith)
      | inr good ↦ elim (Bool-cases (any (can_bind (trim_space id) key) db.agents)) [
        | inl e ↦ subst (Isolated id db) (ground arith) (record {
          tokens = refl;
          agents =
              keep-update_where (λ a. not (a.id == id)) (can_bind (trim_space id) key) f db.agents
                (λ a t. ground (arith, trimmed));
          routes = refl;
        })
        | inr e ↦
            subst (Isolated id db)
              (refused-same key (agent_with_id (trim_space id) db.agents) db db' (ground arith))
              (Isolated-refl id db)
      ]
    ]

module _ {S : Type 0} (env : Env) (config : Config) (options : Options) (s : State S) where
  heard-Isolated :
      (a : Agent) (revision : ℤ) (reported : Option S) (result : Result Db)
      → ((db' : Db) → result ≡ ok db' → Isolated a.id s.db db')
      → Isolated a.id s.db (heard env config a revision reported s result).1.db
  unfolding heard
  heard-Isolated a revision reported (err e) step = Isolated-refl a.id s.db
  heard-Isolated a revision reported (ok db') step = step db' refl

  synced_after-Isolated :
      (id : Text) (sync : List AgentSshKey → Bool) (result : Result Db)
      → ((db' : Db) → result ≡ ok db' → Isolated id s.db db')
      → Isolated id s.db (synced_after sync s.db result).1
  unfolding synced_after
  synced_after-Isolated id sync (err e) step = Isolated-refl id s.db
  synced_after-Isolated id sync (ok db') step = step db' refl

  bound_key-Isolated :
      (id : Text) (result : Result (List AgentSshKey)) (db' : Db)
      → Isolated id s.db db'
      → Isolated id s.db (bound_key env config s (result, db')).1.db
  unfolding bound_key
  bound_key-Isolated id (err e) db' step = step
  bound_key-Isolated id (ok bound) db' step = step

  register_key-Isolated :
      (a : Agent) (key : Option Text)
      → trim_space a.id ≡ a.id
      → Isolated a.id s.db (register_key env config a s key).1.db
  unfolding register_key bind_agent_ssh_key_and_sync
  register_key-Isolated a none trimmed = Isolated-refl a.id s.db
  register_key-Isolated a (some key) trimmed =
      let set = set_agent_ssh_key env.now a.id key s.db in
      let result = synced_after (sync_keys env config) s.db set in
      bound_key-Isolated a.id result.0 result.1 (
        synced_after-Isolated a.id (sync_keys env config) set
          (λ db' done. set_agent_ssh_key-Isolated env.now a.id key s.db db' trimmed done))

  if-Isolated :
      (id : Text) (b : Bool) (x y : Response S × State S)
      → Isolated id s.db x.1.db
      → Isolated id s.db y.1.db
      → Isolated id s.db (if b then x else y).1.db
  if-Isolated id true x y p q = p
  if-Isolated id false x y p q = q

  pub serve_agent-Isolated :
      (a : Agent) (call : AgentCall S)
      → trim_space a.id ≡ a.id
      → Isolated a.id s.db (serve_agent env config options a call s).1.db
  unfolding serve_agent handle_register_key handle_heartbeat handle_observed
  serve_agent-Isolated a (put_ssh_key none) trimmed =
      if-Isolated a.id _ _ _ (Isolated-refl a.id s.db) (Isolated-refl a.id s.db)
  serve_agent-Isolated a (put_ssh_key (some key)) trimmed =
      if-Isolated a.id _ _ _ (Isolated-refl a.id s.db)
        (register_key-Isolated a (normalize key) trimmed)
  serve_agent-Isolated a (post_heartbeat none) trimmed = Isolated-refl a.id s.db
  serve_agent-Isolated a (post_heartbeat (some r)) trimmed =
      heard-Isolated a r.observed_revision r.system
        (heartbeat env.now a.id r.observed_revision r.routes s.db)
        (λ db' done. heartbeat-Isolated env.now a.id r.observed_revision r.routes s.db db' done)
  serve_agent-Isolated a get_sync trimmed = Isolated-refl a.id s.db
  serve_agent-Isolated a (post_observed none) trimmed = Isolated-refl a.id s.db
  serve_agent-Isolated a (post_observed (some r)) trimmed =
      let os = map (observation_of r.revision) r.routes in
      heard-Isolated a r.revision r.system (heartbeat env.now a.id r.revision os s.db)
        (λ db' done. heartbeat-Isolated env.now a.id r.revision os s.db db' done)
