-- ===== src/Store/Invariant/Routes/Create.antt =====
-- A successful CreateRoute keeps the invariant, and what it returns.
use portloom.Domain.Agent.{Time}
use portloom.Domain.Route.{Route}
use portloom.Domain.Route.Laws.{IsValid, validate-IsValid}
use portloom.Prelude.{Bool, Option, Text, [], arith, inl, inr, int_laws, refl, ℕ, ℤ, ◌==◌, ◌≡◌, ◌≢◌}
use portloom.Store.Db.{Db, Options, stored}
use portloom.Store.Invariant.{AgentOk, HasOwner, RouteOk, WellFormed}
use portloom.Store.Invariant.Agents.{bump-WellFormed}
use portloom.Store.Invariant.Routes.Created.{Creation, insert-WellFormed}
use portloom.Store.Routes.{bumped, new_row, public_port_available, takes_port}
use portloom.Store.Routes.Allocation.{allocate_port-IsFree}
use portloom.Store.Rows.{All-find}
use portloom.Strings.Laws.{IsLowerTable}

-- The fields that validity reads.
pub record SameShape (a b : Route) : Type 0 where
  pub name : a.name ≡ b.name
  pub protocol : a.protocol ≡ b.protocol
  pub domain : a.domain ≡ b.domain
  pub path_prefix : a.path_prefix ≡ b.path_prefix
  pub strip_path : a.strip_path ≡ b.strip_path
  pub local_host : a.local_host ≡ b.local_host
  pub local_port : a.local_port ≡ b.local_port
  pub public_port : a.public_port ≡ b.public_port
  pub tunnel_group : a.tunnel_group ≡ b.tunnel_group

pub IsValid-same : (a b : Route) → SameShape a b → IsValid a → IsValid b
IsValid-same a b s v = record {
  name = rw (← s.name) v.name;
  local_host = rw (← s.local_host) v.local_host;
  local_port = rw (← s.local_port) v.local_port;
  group = rw (← s.tunnel_group) v.group;
  endpoint = elim v.endpoint [
    | inl w ↦ inl (record {
      web = rw (← s.protocol) w.web;
      domain = rw (← s.domain) w.domain;
      prefix = rw (← s.path_prefix) w.prefix;
      strip = rw (← s.path_prefix, ← s.strip_path) w.strip;
      port = rw (← s.public_port) w.port;
      no_default = rw (← s.public_port, ← s.protocol) w.no_default;
    })
    | inr t ↦ inr (record {
      stream = rw (← s.protocol) t.stream;
      domain = rw (← s.domain) t.domain;
      prefix = rw (← s.path_prefix) t.prefix;
      strip = rw (← s.strip_path) t.strip;
      port = rw (← s.public_port) t.port;
    })
  ];
}

-- Routes that agree in all those fields by computation.
pub same_shape : (a : Route) → SameShape a a
same_shape a = record {
  name = refl;
  protocol = refl;
  domain = refl;
  path_prefix = refl;
  strip_path = refl;
  local_host = refl;
  local_port = refl;
  public_port = refl;
  tunnel_group = refl;
}

abbrev new_shape :
    (route : Route) (id : Text) (port : ℕ) (revision : ℤ) (now : Time)
    → SameShape route (stored (new_row route id port revision now))
new_shape route id port revision now = record {
  name = refl;
  protocol = refl;
  domain = refl;
  path_prefix = refl;
  strip_path = refl;
  local_host = refl;
  local_port = refl;
  public_port = refl;
  tunnel_group = refl;
}

module _ (unicode_lower : ℕ → ℕ) (table : IsLowerTable unicode_lower) (now : Time)
    (options : Options) (available : ℕ → Bool) (random_id : Option Text) (raw : Route) (db : Db)
    (row : Route) (db' : Db) (w : WellFormed options db)
    (c : Creation unicode_lower now options available random_id raw db row db')
    (named : c.new_id ≢ []) where
  new-IsValid : IsValid (stored (new_row c.route c.new_id c.port c.revision now))
  new-IsValid =
      IsValid-same c.route _ (new_shape c.route c.new_id c.port c.revision now)
        (validate-IsValid unicode_lower table raw c.route c.validated)

  pub Creation-WellFormed : WellFormed options db'
  unfolding public_port_available takes_port
  Creation-WellFormed =
      let r = new_row c.route c.new_id c.port c.revision now in
      let (wb, same_routes, same_tokens, (a, found, next, found')) =
        bump-WellFormed options now c.route.client_id db c.advanced_db c.revision w c.advanced in
      let (low, high, free, least) =
        allocate_port-IsFree options available c.advanced_db c.port c.allocated in
      let good : RouteOk options (stored r) = record {
        named = named;
        valid = new-IsValid;
        in_range = (c.port, refl, low, high);
      } in
      let agent_ok =
        All-find AgentOk (λ b. b.id == c.route.client_id) db.agents w.agents_ok found in
      let owner : HasOwner c.advanced_db.agents (stored r) = record {
        agent = bumped now a;
        found = found';
        desired = rw next (omega arith);
        observed = omega (int_laws, agent_ok.nonneg, agent_ok.asked);
      } in
      insert-WellFormed options r (IsValid-same (stored r) r (old_shape r) new-IsValid)
        c.advanced_db db' wb good owner c.free c.inserted
    where
      old_shape : (r : Route) → SameShape (stored r) r
      old_shape r = record {
        name = refl;
        protocol = refl;
        domain = refl;
        path_prefix = refl;
        strip_path = refl;
        local_host = refl;
        local_port = refl;
        public_port = refl;
        tunnel_group = refl;
      }
