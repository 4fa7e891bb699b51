-- ===== src/Store/Invariant/Heartbeat.antt =====
-- A heartbeat keeps the invariant: no observation gets ahead of the desired revision.
use portloom.Domain.Agent.{RouteObservation, Time}
use portloom.Domain.Route.{Route}
use portloom.Prelude.{
  All, Bool-cases, List, Pairwise, Text, [], any, arith, false, inl, inr, ltb_ℤ, not, pos, refl,
  some, subst, sym, text_eq_iff, true, ℤ, ◌==◌, ◌||◌, ◌∙◌, ◌∷◌, ◌≡◌, ◌≤ℤ◌,
}
use portloom.Store.Db.{
  >>=-eq-ok, AgentRow, Db, Options, agent_with_id, guard, guard-eq-ok, invalid_input, ok,
  or_err-eq-ok, update_where, ◌>>◌,
}
use portloom.Store.Heartbeat.{
  heartbeat, is_target, observe_routes, observed_row, out_of_range, seen,
}
use portloom.Store.Invariant.{AgentOk, Compatible, DistinctAgents, HasOwner, RouteOk, WellFormed}
use portloom.Store.Invariant.Agents.{IsAdvance, update-WellFormed}
use portloom.Store.Invariant.Routes.Create.{IsValid-same}
use portloom.Store.Rows.{All-both, All-update_where, Pairwise-update_where, changed, find_unique}

-- The checks that an accepted heartbeat passed.
pub record Accepted (now : Time) (id : Text) (observed : ℤ) (os : List RouteObservation)
    (db db' : Db) : Type 0 where
  pub agent : AgentRow
  pub found : agent_with_id id db.agents ≡ some agent
  pub forward : agent.observed_revision ≤ℤ observed
  pub nonneg : pos 0 ≤ℤ observed
  pub asked : observed ≤ℤ agent.desired_revision
  pub in_range : any (out_of_range agent.desired_revision) os ≡ false
  pub result : db' ≡ record db {
    agents = update_where (λ a. a.id == id) (seen observed now) db.agents;
    routes = observe_routes id now os db.routes;
  }

module _ (now : Time) (id : Text) (observed : ℤ) (os : List RouteObservation) (db db' : Db) where
  pub heartbeat-Accepted :
      heartbeat now id observed os db ≡ ok db' → Accepted now id observed os db db'
  unfolding heartbeat
  heartbeat-Accepted done =
      let (agent, found, h1) = >>=-eq-ok {A = AgentRow} _ _ done in
      let next : Db = record db {
        agents = update_where (λ a. a.id == id) (seen observed now) db.agents;
        routes = observe_routes id now os db.routes;
      } in
      let (range, h2) =
        guard-eq-ok
          (not (
            ltb_ℤ observed agent.observed_revision
            || ltb_ℤ observed (pos 0)
            || ltb_ℤ agent.desired_revision observed))
          invalid_input
          (guard (not (any (out_of_range agent.desired_revision) os)) invalid_input >> ok next)
          h1 in
      let (all_in, h3) =
        guard-eq-ok (not (any (out_of_range agent.desired_revision) os)) invalid_input (ok next)
          h2 in
      record {
        agent = agent;
        found = or_err-eq-ok _ _ found;
        forward = ground arith;
        nonneg = ground arith;
        asked = ground arith;
        in_range = ground arith;
        result = ground arith;
      }

seen-IsAdvance : (observed : ℤ) (now : Time) (a : AgentRow) → IsAdvance a (seen observed now a)
seen-IsAdvance observed now a = record { id = refl; token_hash = refl; desired = omega arith }

-- One observation of the routes of an agent.
module _ (options : Options) (agents : List AgentRow) (id : Text) (a : AgentRow)
    (found : agent_with_id id agents ≡ some a) (now : Time) where
  module _ (o : RouteObservation) (asked : o.observed_revision ≤ℤ a.desired_revision) where
    step_same :
        (x y : Route)
        → Unit {0}
        → Unit {0}
        → Compatible x y
        → Compatible
            (changed (is_target id o) (observed_row o now) x)
            (changed (is_target id o) (observed_row o now) y)
    step_same x y _ _ c = elim (Bool-cases (is_target id o x)) [
      | inl p ↦ elim (Bool-cases (is_target id o y)) [
        | inl q ↦ rw (p, q) (same_record x y c)
        | inr q ↦ rw (p, q) (same_left x y c)
      ]
      | inr p ↦ elim (Bool-cases (is_target id o y)) [
        | inl q ↦ rw (p, q) (same_right x y c)
        | inr q ↦ rw (p, q) c
      ]
    ]
      where
        same_left : (u v : Route) → Compatible u v → Compatible (observed_row o now u) v
        same_left u v k = record {
          id = k.id;
          remote_port = k.remote_port;
          web = λ s. k.web (record {
            web = s.web;
            protocol = s.protocol;
            domain = s.domain;
            public_port = s.public_port;
            path_prefix = s.path_prefix;
          });
          port = k.port;
        }

        same_right : (u v : Route) → Compatible u v → Compatible u (observed_row o now v)
        same_right u v k = record {
          id = k.id;
          remote_port = k.remote_port;
          web = λ s. k.web (record {
            web = s.web;
            protocol = s.protocol;
            domain = s.domain;
            public_port = s.public_port;
            path_prefix = s.path_prefix;
          });
          port = k.port;
        }

        same_record :
            (u v : Route)
            → Compatible u v
            → Compatible (observed_row o now u) (observed_row o now v)
        same_record u v k = same_left u (observed_row o now v) (same_right u v k)

    RouteOk-observed : (q : Route) → RouteOk options q → RouteOk options (observed_row o now q)
    RouteOk-observed q k = record {
      named = k.named;
      valid =
          IsValid-same q (observed_row o now q)
            (record {
              name = refl;
              protocol = refl;
              domain = refl;
              path_prefix = refl;
              strip_path = refl;
              local_host = refl;
              local_port = refl;
              public_port = refl;
              tunnel_group = refl;
            })
            k.valid;
      in_range = k.in_range;
    }

    HasOwner-observed :
        (q : Route)
        → is_target id o q ≡ true
        → HasOwner agents q
        → HasOwner agents (observed_row o now q)
    HasOwner-observed q target h =
        let same : q.client_id ≡ id = (text_eq_iff q.client_id id).0 (ground arith) in
        let one : h.agent ≡ a =
          cc (subst (λ i. agent_with_id i agents ≡ some h.agent) same h.found) in
        record {
          agent = h.agent;
          found = h.found;
          desired = h.desired;
          observed =
              subst (λ (b : AgentRow). o.observed_revision ≤ℤ b.desired_revision) (sym one) asked;
        }

  -- What is kept of the table of routes.
  record RoutesKept (routes : List Route) : Type 0 where
    distinct : Pairwise Compatible routes
    good : All (RouteOk options) routes
    owned : All (HasOwner agents) routes

  units : (l : List Route) → All (λ q. Unit {0}) l
  units [] = tt
  units (q ∷ l) = (tt, units l)

  observe_routes-kept :
      (os : List RouteObservation) (routes : List Route)
      → any (out_of_range a.desired_revision) os ≡ false
      → RoutesKept routes
      → RoutesKept (observe_routes id now os routes)
  unfolding observe_routes
  observe_routes-kept [] routes fits k = k
  observe_routes-kept (o ∷ os) routes fits k =
      let asked : o.observed_revision ≤ℤ a.desired_revision = ground arith in
      observe_routes-kept os (update_where (is_target id o) (observed_row o now) routes)
        (ground arith)
        (record {
          distinct =
              Pairwise-update_where (λ q. Unit {0}) Compatible Compatible (is_target id o)
                (observed_row o now) (step_same o asked) routes (units routes) k.distinct;
          good =
              All-update_where (is_target id o) (observed_row o now) routes
                (λ q t r. RouteOk-observed o asked q r) (λ q t r. r) k.good;
          owned =
              All-update_where (is_target id o) (observed_row o now) routes
                (λ q t r. HasOwner-observed o asked q t r) (λ q t r. r) k.owned;
        })

AgentOk-seen :
    (observed : ℤ) (now : Time) (a b : AgentRow)
    → b ≡ a
    → pos 0 ≤ℤ observed
    → observed ≤ℤ a.desired_revision
    → AgentOk b
    → AgentOk (seen observed now b)
AgentOk-seen observed now a b same nonneg asked k =
    let asked' = subst (λ (x : AgentRow). observed ≤ℤ x.desired_revision) (sym same) asked in
    let low = k.nonneg in
    let high = k.asked in record { nonneg = ground arith; asked = ground arith }

one_agent :
    (id : Text) (x y : AgentRow)
    → DistinctAgents x y
    → (x.id == id) ≡ true
    → (y.id == id) ≡ true
    → ⊥
one_agent id x y d px py = d.0 ((text_eq_iff x.id id).0 px ∙ sym ((text_eq_iff y.id id).0 py))

pub heartbeat-WellFormed :
    (options : Options) (now : Time) (id : Text) (observed : ℤ) (os : List RouteObservation)
    (db db' : Db)
    → WellFormed options db
    → heartbeat now id observed os db ≡ ok db'
    → WellFormed options db'
heartbeat-WellFormed options now id observed os db db' w done =
    let c = heartbeat-Accepted now id observed os db db' done in
    let p = λ (b : AgentRow). b.id == id in
    let only = find_unique DistinctAgents p (one_agent id) db.agents w.agents_distinct c.found in
    let routes =
      observe_routes-kept options db.agents id c.agent c.found now os db.routes c.in_range
        (record { distinct = w.routes_distinct; good = w.routes_ok; owned = w.owned }) in
    let middle : Db = record db { routes = observe_routes id now os db.routes } in
    let wm : WellFormed options middle = record {
      agents_distinct = w.agents_distinct;
      agents_ok = w.agents_ok;
      routes_distinct = routes.distinct;
      routes_ok = routes.good;
      owned = routes.owned;
    } in
    subst (WellFormed options) (sym c.result) (
      update-WellFormed p (seen observed now) (seen-IsAdvance observed now) options middle wm (
        All-update_where p (seen observed now) db.agents
          (λ b t k. AgentOk-seen observed now c.agent b (k.1 t) c.nonneg c.asked k.0) (λ b t k. k.0)
          (All-both AgentOk (λ b. p b ≡ true → b ≡ c.agent) db.agents w.agents_ok only)))
