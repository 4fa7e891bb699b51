-- ===== src/Store/Heartbeat.antt =====
-- internal/store/routes.go: the heartbeat of an agent, with its observations of routes.
use portloom.Domain.Agent.{RouteObservation, Time}
use portloom.Domain.Route.{Route}
use portloom.Prelude.{
  Bool, List, Text, [], any, if◌then◌else◌, leb_ℤ, ltb_ℤ, not, pos, some, ℤ, ◌&&◌, ◌==◌, ◌||◌, ◌∷◌,
}
use portloom.Store.Db.{
  AgentRow, Db, Result, agent_with_id, guard, invalid_input, not_found, ok, or_err, update_where,
  ◌>>=◌, ◌>>◌,
}

-- A route's observation is out of range for the desired revision.
abbrev pub out_of_range : ℤ → RouteObservation → Bool
out_of_range desired o = ltb_ℤ o.observed_revision (pos 0) || ltb_ℤ desired o.observed_revision

-- UPDATE agents SET observed_revision = CASE …, last_seen_at = ?, updated_at = ?.
abbrev pub seen : ℤ → Time → AgentRow → AgentRow
seen observed now a = record a {
  observed_revision = if ltb_ℤ a.observed_revision observed then observed else a.observed_revision;
  last_seen_at = some now;
  updated_at = now;
}

-- The WHERE clause and the columns of UPDATE routes for one observation.
abbrev pub is_target : Text → RouteObservation → Route → Bool
is_target agent_id o r =
    r.id == o.route_id
    && r.client_id == agent_id
    && leb_ℤ r.desired_revision o.observed_revision
    && leb_ℤ r.observed_revision o.observed_revision

abbrev pub observed_row : RouteObservation → Time → Route → Route
observed_row o now r = record r {
  observed_revision = o.observed_revision;
  local_status = o.local_status;
  tunnel_status = o.tunnel_status;
  last_error = o.last_error;
  updated_at = now;
}

-- The loop over the observations.
unfoldable pub observe_routes : Text → Time → List RouteObservation → List Route → List Route
unfolding ◌==◌
observe_routes agent_id now [] routes = routes
observe_routes agent_id now (o ∷ os) routes =
    observe_routes agent_id now os (update_where (is_target agent_id o) (observed_row o now) routes)

unfoldable pub heartbeat : Time → Text → ℤ → List RouteObservation → Db → Result Db
unfolding ◌==◌ observe_routes
heartbeat now agent_id observed observations db = do
  agent ← or_err (agent_with_id agent_id db.agents) not_found
  guard
      (not (
        ltb_ℤ observed agent.observed_revision
        || ltb_ℤ observed (pos 0)
        || ltb_ℤ agent.desired_revision observed))
      invalid_input
  guard (not (any (out_of_range agent.desired_revision) observations)) invalid_input
  ok (record db {
    agents = update_where (λ a. a.id == agent_id) (seen observed now) db.agents;
    routes = observe_routes agent_id now observations db.routes;
  })
