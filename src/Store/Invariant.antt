-- ===== src/Store/Invariant.antt =====
-- What the store keeps true of its tables.
pub mod Agents
pub mod Routes
pub mod Others
pub mod Heartbeat
pub mod Enroll
pub mod Reach
pub mod Published
use portloom.Domain.Route.{Route, is_web}
use portloom.Domain.Route.Laws.{IsValid}
use portloom.Prelude.{All, List, Pairwise, [], pos, some, true, ℕ, ◌≡◌, ◌≢◌, ◌≤ℤ◌, ◌≤◌}
use portloom.Store.Db.{AgentRow, Db, Options, agent_with_id, empty_db}

abbrev pub DistinctAgents : AgentRow → AgentRow → Type 0
DistinctAgents a b = (a.id ≢ b.id) × (a.token_hash ≢ b.token_hash)

-- An agent has observed no revision that it was not asked for.
pub record AgentOk (a : AgentRow) : Type 0 where
  pub nonneg : pos 0 ≤ℤ a.observed_revision
  pub asked : a.observed_revision ≤ℤ a.desired_revision

-- Two web routes differ in scheme, domain, port or prefix.
pub record SameWeb (a b : Route) : Type 0 where
  pub web : is_web a.protocol ≡ true
  pub protocol : a.protocol ≡ b.protocol
  pub domain : a.domain ≡ b.domain
  pub public_port : a.public_port ≡ b.public_port
  pub path_prefix : a.path_prefix ≡ b.path_prefix

-- Two routes share neither an identifier, nor a tunnel port, nor an endpoint; a public port that
-- is written out is shared only by web routes of one scheme.
pub record Compatible (a b : Route) : Type 0 where
  pub id : a.id ≢ b.id
  pub remote_port : a.remote_port ≢ b.remote_port
  pub web : ¬ (SameWeb a b)
  pub port :
      a.public_port ≢ pos 0
      → a.public_port ≡ b.public_port
      → (is_web a.protocol ≡ true) × (a.protocol ≡ b.protocol)

-- The owner of a route, whose revisions bound those of the route.
pub record HasOwner (agents : List AgentRow) (r : Route) : Type 0 where
  pub agent : AgentRow
  pub found : agent_with_id r.client_id agents ≡ some agent
  pub desired : r.desired_revision ≤ℤ agent.desired_revision
  pub observed : r.observed_revision ≤ℤ agent.desired_revision

pub record RouteOk (options : Options) (r : Route) : Type 0 where
  pub named : r.id ≢ []
  pub valid : IsValid r
  pub in_range :
      (port : ℕ) × (r.remote_port ≡ pos port)
      × (options.port_range_start ≤ port)
      × (port ≤ options.port_range_end)

pub record WellFormed (options : Options) (db : Db) : Type 0 where
  pub agents_distinct : Pairwise DistinctAgents db.agents
  pub agents_ok : All AgentOk db.agents
  pub routes_distinct : Pairwise Compatible db.routes
  pub routes_ok : All (RouteOk options) db.routes
  pub owned : All (HasOwner db.agents) db.routes

pub WellFormed-empty : (options : Options) → WellFormed options empty_db
WellFormed-empty options = record {
  agents_distinct = tt;
  agents_ok = tt;
  routes_distinct = tt;
  routes_ok = tt;
  owned = tt;
}
