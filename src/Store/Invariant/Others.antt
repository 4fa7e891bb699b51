-- ===== src/Store/Invariant/Others.antt =====
-- Deleting a route, a heartbeat, binding a key and enrolling an agent keep the invariant.
use portloom.Domain.Agent.{Time}
use portloom.Domain.Route.{Route}
use portloom.Prelude.{
  Bool, Bool-cases, List, Option, Text, [], any, arith, inl, inr, keep, none, not, refl, some,
  subst, ◌==◌, ◌||◌, ◌≡◌,
}
use portloom.Store.Db.{
  >>=-eq-ok, AgentRow, Db, Options, TokenRow, agent_with_id, failed, ok, or_err, or_err-eq-ok,
  ◌>>=◌,
}
use portloom.Store.Invariant.{Compatible, HasOwner, RouteOk, WellFormed}
use portloom.Store.Invariant.Agents.{IsAdvance, bump-WellFormed, update-WellFormed}
use portloom.Store.Routes.{bump_desired_revision, delete_route, get_route}
use portloom.Store.Rows.{All-keep, All-update_where, Pairwise-keep}
use portloom.Store.SshKeys.{bind_key, can_bind, refused, set_agent_ssh_key}
use portloom.Strings.{trim_space}

module _ (options : Options) (db : Db) (w : WellFormed options db) where
  -- Fewer routes.
  pub keep-WellFormed :
      (p : Route → Bool) → WellFormed options (record db { routes = keep p db.routes })
  keep-WellFormed p = record {
    agents_distinct = w.agents_distinct;
    agents_ok = w.agents_ok;
    routes_distinct = Pairwise-keep Compatible p db.routes w.routes_distinct;
    routes_ok = All-keep (RouteOk options) p db.routes w.routes_ok;
    owned = All-keep (HasOwner db.agents) p db.routes w.owned;
  }

  -- Other tokens.
  pub tokens-WellFormed :
      (tokens : List TokenRow) → WellFormed options (record db { tokens = tokens })
  tokens-WellFormed tokens = record {
    agents_distinct = w.agents_distinct;
    agents_ok = w.agents_ok;
    routes_distinct = w.routes_distinct;
    routes_ok = w.routes_ok;
    owned = w.owned;
  }

pub delete_route-WellFormed :
    (options : Options) (now : Time) (id : Text) (db db' : Db)
    → WellFormed options db
    → delete_route now id db ≡ ok db'
    → WellFormed options db'
unfolding delete_route
delete_route-WellFormed options now id db db' w done =
    let next = λ (r : Route). or_err (bump_desired_revision now r.client_id rest_db) failed in
    let tail = λ (r : Route). next r >>= λ q. ok q.1 in
    let (current, read, h1) = >>=-eq-ok (get_route id db) tail done in
    let (bump, advanced, h2) = >>=-eq-ok (next current) (λ q. ok q.1) h1 in
    let rest : Db = rest_db in
    let kept_ok =
      bump-WellFormed options now current.client_id rest bump.1 bump.0
        (keep-WellFormed options db w (λ r. not (r.id == id))) (or_err-eq-ok _ _ advanced) in
    subst (WellFormed options) (ground arith) kept_ok.0
  where
    rest_db : Db
    rest_db = record db { routes = keep (λ r. not (r.id == id)) db.routes }

-- Binding a key.
bind_key-IsAdvance : (key : Text) (now : Time) (a : AgentRow) → IsAdvance a (bind_key key now a)
bind_key-IsAdvance key now a = record { id = refl; token_hash = refl; desired = omega arith }

pub refused-same :
    (key : Text) (found : Option AgentRow) (db db' : Db) → refused key found db ≡ ok db' → db ≡ db'
refused-same key none db db' done = cc
refused-same key (some a) db db' done = ground arith

pub set_agent_ssh_key-WellFormed :
    (options : Options) (now : Time) (id key : Text) (db db' : Db)
    → WellFormed options db
    → set_agent_ssh_key now id key db ≡ ok db'
    → WellFormed options db'
unfolding set_agent_ssh_key
set_agent_ssh_key-WellFormed options now raw_id raw_key db db' w done =
    let id = trim_space raw_id in
    let key = trim_space raw_key in
    let f = bind_key key now in
    elim (Bool-cases (id == [] || key == [])) [
      | inl bad ↦ absurd (ground arith)
      | inr good ↦ elim (Bool-cases (any (can_bind id key) db.agents)) [
        | inl e ↦ subst (WellFormed options) (ground arith) (
            update-WellFormed (can_bind id key) f (bind_key-IsAdvance key now) options db w (
              All-update_where (can_bind id key) f db.agents
                (λ a t k. record { nonneg = k.nonneg; asked = k.asked }) (λ a t k. k) w.agents_ok))
        | inr e ↦
            subst (WellFormed options)
              (refused-same key (agent_with_id id db.agents) db db' (ground arith)) w
      ]
    ]
