-- ===== src/Store/Routes.antt =====
-- internal/store/routes.go: creating, changing, deleting and listing routes.
pub mod Allocation
use portloom.Domain.Agent.{Agent, Time}
use portloom.Domain.Route.{
  Protocol, Route, Validated, invalid, is_stream, is_web, protocol_eq, valid, validate,
}
use portloom.Prelude.{
  Bool, List, Option, Text, [], any, find, if◌then◌else◌, int_eq, keep, map, none, not, pos, some,
  suc, zero, ℕ, ℤ, ◌&&◌, ◌+ℤ◌, ◌+◌, ◌-◌, ◌==◌, ◌||◌,
}
use portloom.Store.Db.{
  AgentRow, Db, Options, Result, agent_with_id, conflict, err, failed, guard, insert_route,
  invalid_input, not_found, ok, or_err, port_range_exhausted, same_endpoint, scan_agent,
  update_where, zero_time, ◌>>=◌, ◌>>◌,
}

-- The join of `routeSelect` with the agent's last contact.
abbrev last_seen_of : Option AgentRow → Time
last_seen_of none = 0
last_seen_of (some a) = zero_time a.last_seen_at

unfoldable pub scan_route : Db → Route → Route
unfolding ◌==◌
scan_route db row = record row {
  agent_last_seen_at = last_seen_of (agent_with_id row.client_id db.agents);
}

unfoldable pub route_with_id : Text → Db → Option Route
unfolding ◌==◌
route_with_id id db = find (λ r. r.id == id) db.routes

unfoldable pub get_route : Text → Db → Result Route
unfolding scan_route route_with_id
get_route id db = do row ← or_err (route_with_id id db) not_found; ok (scan_route db row)

-- ListRoutes, but for the order of the rows.
unfoldable pub list_routes : Db → List Route
unfolding scan_route
list_routes db = map (scan_route db) db.routes

-- HTTPSDomainEnabled and PlainHTTPDomainEnabled.
unfoldable pub web_domain_enabled : Protocol → Text → Db → Bool
unfolding ◌==◌ protocol_eq
web_domain_enabled protocol name db =
    any (λ r. protocol_eq r.protocol protocol && r.domain == name && r.enabled) db.routes

unfoldable pub sync_agent : Text → Db → Result (Agent × List Route)
unfolding ◌==◌ scan_route
sync_agent id db = do
  row ← or_err (agent_with_id id db.agents) not_found
  ok (scan_agent row, map (scan_route db) (keep (λ r. r.client_id == id) db.routes))

-- UPDATE agents SET desired_revision = desired_revision + 1 … RETURNING desired_revision.
abbrev pub bumped : Time → AgentRow → AgentRow
bumped now a = record a { desired_revision = a.desired_revision +ℤ pos 1; updated_at = now }

unfoldable pub bump_desired_revision : Time → Text → Db → Option (ℤ × Db)
unfolding ◌==◌
bump_desired_revision now id db = elim (agent_with_id id db.agents) [
  | none ↦ none
  | some a ↦ some (
    a.desired_revision +ℤ pos 1,
    record db { agents = update_where (λ b. b.id == id) (bumped now) db.agents },
  )
]

-- The loop of allocatePort: `fuel` counts the ports of the range that are left.
-- loopbackPortAvailable asks the operating system, and is the parameter `available`.
unfoldable pub allocate_from : (ℕ → Bool) → List Route → ℕ → ℕ → Option ℕ
allocate_from available routes zero port = none
allocate_from available routes (suc fuel) port =
    let rest = allocate_from available routes fuel (port + 1) in
    if not (any (λ r. int_eq r.remote_port (pos port)) routes) && available port
    then some port
    else rest

unfoldable pub allocate_port : Options → (ℕ → Bool) → Db → Option ℕ
unfolding allocate_from
allocate_port options available db =
    allocate_from available db.routes (options.port_range_end + 1 - options.port_range_start)
      options.port_range_start

-- The query of ensurePublicPortAvailable: whether a row takes the port from the route.
unfoldable pub takes_port : Route → Text → Route → Bool
unfolding ◌==◌ protocol_eq
takes_port route exclude row =
    int_eq row.public_port route.public_port
    && not (row.id == exclude)
    && (if is_stream route.protocol
        then is_web row.protocol
        else is_stream row.protocol
          || (is_web row.protocol && not (protocol_eq row.protocol route.protocol)))

unfoldable pub public_port_available : Route → Text → Db → Bool
unfolding takes_port
public_port_available route exclude db =
    int_eq route.public_port (pos 0) || not (any (takes_port route exclude) db.routes)

abbrev pub checked : Validated → Result Route
checked (valid r) = ok r
checked (invalid e) = err invalid_input

-- The row of a new route.
abbrev pub new_row : Route → Text → ℕ → ℤ → Time → Route
new_row route id port revision now = record route {
  id = id;
  remote_port = pos port;
  desired_revision = revision;
  observed_revision = pos 0;
  local_status = [];
  tunnel_status = [];
  last_error = [];
  created_at = now;
  updated_at = now;
}

module _ (unicode_lower : ℕ → ℕ) (now : Time) where
  unfoldable pub create_route :
      Options → (ℕ → Bool) → Option Text → Route → Db → Result (Route × Db)
  create_route options available random_id raw db = do
    route ← checked (validate unicode_lower raw)
    (revision, bumped_db) ← or_err (bump_desired_revision now route.client_id db) not_found
    port ← or_err (allocate_port options available bumped_db) port_range_exhausted
    guard (public_port_available route [] bumped_db) conflict
    id ← or_err random_id failed
    let row = new_row route id port revision now
    db' ← insert_route row bumped_db
    ok (row, db')

  -- What an update keeps of the current route.
  abbrev pub kept : Route → Route → Route
  kept current update = record update {
    id = current.id;
    client_id = current.client_id;
    remote_port = current.remote_port;
    created_at = current.created_at;
    observed_revision = current.observed_revision;
    local_status = current.local_status;
    tunnel_status = current.tunnel_status;
    last_error = current.last_error;
    agent_last_seen_at = current.agent_last_seen_at;
  }

  -- UPDATE routes SET …: the columns of one row that an update writes.
  abbrev pub written : Route → Route → Route
  written update row = record row {
    name = update.name;
    protocol = update.protocol;
    domain = update.domain;
    path_prefix = update.path_prefix;
    strip_path = update.strip_path;
    local_host = update.local_host;
    local_port = update.local_port;
    public_port = update.public_port;
    tunnel_group = update.tunnel_group;
    enabled = update.enabled;
    desired_revision = update.desired_revision;
    updated_at = update.updated_at;
  }

  unfoldable pub write_route : Text → Route → Db → Result Db
  unfolding ◌==◌ protocol_eq
  write_route id update db =
      if any (λ q. not (q.id == id) && same_endpoint q update) db.routes
      then err conflict
      else ok (record db { routes = update_where (λ q. q.id == id) (written update) db.routes })

  unfoldable pub update_route : Text → Route → Db → Result (Route × Db)
  update_route id raw db = do
    current ← get_route id db
    route ← checked (validate unicode_lower (kept current raw))
    (revision, bumped_db) ← or_err (bump_desired_revision now current.client_id db) failed
    let update = record route { desired_revision = revision; updated_at = now }
    guard (public_port_available update id bumped_db) conflict
    db' ← write_route id update bumped_db
    ok (update, db')

unfoldable pub delete_route : Time → Text → Db → Result Db
unfolding ◌==◌
delete_route now id db = do
  current ← get_route id db
  let rest = record db { routes = keep (λ r. not (r.id == id)) db.routes }
  (revision, db') ← or_err (bump_desired_revision now current.client_id rest) failed
  ok db'
