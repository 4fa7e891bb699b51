-- ===== src/Tunnel/Reconcile.antt =====
-- internal/agent/reconciler.go: Reconcile.
pub mod Master
use portloom.Domain.Route.{Route}
use portloom.Maps.{keys}
use portloom.Prelude.{
  Bool, List, Text, [], any, codes, false, if◌then◌else◌, keep, map, none, not, some, true, ℕ, ◌++◌,
  ◌==◌, ◌||◌, ◌∷◌,
}
use portloom.Tunnel.{Desired, Observation, Observed, Reconciler, Relay, Runner, disabled, error}
use portloom.Tunnel.Forwarding.{cancel_route}
use portloom.Tunnel.Serve.{reconcile_route}

-- The loop over the desired routes: the observations, the identifiers seen, whether a
-- cancellation failed, and the state.
pub record Pass (W : Type 0) : Type 0 where
  pub observations : List Observation
  pub seen : List Text
  pub cancel_failed : Bool
  pub reconciler : Reconciler W

abbrev pub failed_observation : Text → Text → Observation
failed_observation m id = record {
  route_id = id;
  local_status = error;
  tunnel_status = error;
  message = m;
}

abbrev pub duplicate : Text → Observation
duplicate id = record {
  route_id = id;
  local_status = error;
  tunnel_status = error;
  message = codes "route ID is required and must be unique";
}

unfoldable pub failed_routes : Text → List Route → List Text → List Observation × List Text
unfolding ◌==◌
failed_routes m [] seen = ([], seen)
failed_routes m (route ∷ routes) seen =
    let skipped = failed_routes m routes seen in
    let rest = failed_routes m routes (route.id ∷ seen) in
    if route.id == [] || any (λ id. id == route.id) seen
    then skipped
    else (failed_observation m route.id ∷ rest.0, rest.1)

-- masterFailureObserved.
unfoldable pub master_failure_observed : {W : Type 0} → Desired → Reconciler W → Text → Observed
unfolding failed_routes ◌==◌
master_failure_observed desired r m =
    let listed = failed_routes m desired.routes [] in
    record {
      revision = r.observed_revision;
      routes =
          listed.0
          ++ map (failed_observation m)
              (keep (λ id. not (any (λ s. s == id) listed.1)) (keys r.active));
    }

module _ {W : Type 0} (runner : Runner W) where
  unfoldable pub reconcile_routes :
      (ℕ → ℕ) → Text → List Route → List Text → Bool → Reconciler W → Pass W
  unfolding ◌==◌ reconcile_route
  reconcile_routes unicode_lower host [] seen failed r = record {
    observations = [];
    seen = seen;
    cancel_failed = failed;
    reconciler = r;
  }
  reconcile_routes unicode_lower host (route ∷ routes) seen failed r =
      let o = reconcile_route runner unicode_lower host route r in
      let skipped = reconcile_routes unicode_lower host routes seen failed r in
      let rest =
        reconcile_routes unicode_lower host routes (route.id ∷ seen) (failed || o.cancel_failed)
          o.reconciler in
      if route.id == [] || any (λ id. id == route.id) seen
      then record skipped { observations = duplicate route.id ∷ skipped.observations }
      else record rest { observations = o.observation ∷ rest.observations }

  -- The forwards of routes that are not desired any more, in the order of the given keys.
  unfoldable pub cancel_stale : List Text → Pass W → Pass W
  unfolding ◌==◌ cancel_route
  cancel_stale [] p = p
  cancel_stale (id ∷ ids) p =
      let c = cancel_route runner id p.reconciler in
      let failure : Pass W = elim c.0 [
        | none ↦ record p { reconciler = c.1 }
        | some m ↦ record p {
          observations =
              p.observations
              ++ record {
                route_id = id;
                local_status = disabled;
                tunnel_status = error;
                message = m;
              }
                ∷ [];
          cancel_failed = true;
          reconciler = c.1;
        }
      ] in
      let kept = cancel_stale ids p in
      let next = cancel_stale ids failure in if any (λ s. s == id) p.seen then kept else next

  -- The relays of routes that are not desired any more.
  unfoldable pub close_stale : List Text → List (Text × Relay) → W → List (Text × Relay) × W
  unfolding ◌==◌
  close_stale seen [] w = ([], w)
  close_stale seen (e ∷ relays) w =
      let kept = close_stale seen relays w in
      let closed = close_stale seen relays (runner.close_relay e.1 w) in
      if any (λ s. s == e.0) seen then (e ∷ kept.0, kept.1) else closed

  -- Reconcile with a master connection that is known to be there or not to be there.
  unfoldable pub reconcile_all : (ℕ → ℕ) → Text → Desired → Reconciler W → Observed × Reconciler W
  unfolding reconcile_routes cancel_stale close_stale
  reconcile_all unicode_lower host desired r =
      let pass = reconcile_routes unicode_lower host desired.routes [] false r in
      let end = cancel_stale (keys pass.reconciler.active) pass in
      let s = end.reconciler in
      let relays = close_stale end.seen s.relays s.world in
      let revision = if end.cancel_failed then r.observed_revision else desired.revision in
      (
        record { revision = revision; routes = end.observations },
        record s { relays = relays.0; observed_revision = revision; world = relays.1 },
      )

  unfoldable pub reconcile : (ℕ → ℕ) → Text → Desired → Reconciler W → Observed × Reconciler W
  unfolding reconcile_all master_failure_observed
  reconcile unicode_lower host desired r =
      let check = runner.check_master r.world in
      let closing = runner.close_master check.1 in
      let reset = record r { master_ready = false; active = []; world = closing.1 } in
      let ready = reconcile_all unicode_lower host desired (record r { world = check.1 }) in
      let again = reconcile_all unicode_lower host desired reset in
      if not r.master_ready then reconcile_all unicode_lower host desired r else elim check.0 [
        | none ↦ ready
        | some m ↦ elim closing.0 [
          | none ↦ again
          | some n ↦ (
            master_failure_observed desired r (
                codes "SSH ControlMaster state is unknown: check failed: "
                ++ m
                ++ codes "; close failed: "
                ++ n),
            record r { world = closing.1 },
          )
        ]
      ]
