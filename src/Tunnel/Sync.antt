-- ===== src/Tunnel/Sync.antt =====
-- internal/agent/sync.go: one round of an agent with its server. The server's client and the
-- reconciler act on an outside world `W`; DeepEqual compares routes field by field.
pub mod Revisions
use portloom.Domain.Agent.{Time}
use portloom.Domain.Route.{Route, protocol_eq}
use portloom.Prelude.{
  Bool, List, Option, Text, [], bool_eq, false, if◌then◌else◌, int_eq, keep, leb, ltb_ℤ, map,
  nat_eq, none, not, pos, some, true, ℕ, ℤ, ◌&&◌, ◌-◌, ◌==◌, ◌∷◌,
}
use portloom.Tunnel.{Desired, Observed, is_error}

-- What FetchDesired gives: `recoverable` is the result of recoverableFetchError on its error.
pub data Fetched : Type 0 where
  fetched : Desired → Fetched
  fetch_failed : Bool → Fetched

-- ServerClient, StateReconciler and the state of the caller's context.
pub record Client (W : Type 0) : Type 0 where
  pub fetch_desired : ℤ → W → Fetched × W
  pub report_observed : Observed → W → Bool × W
  pub reconcile : Desired → W → Observed × W
  pub is_cancelled : W → Bool

pub record Syncer : Type 0 where
  pub observed_revision : ℤ
  pub accepted : Option Desired
  pub cached : Option (Desired × Time)
  pub desired_cache_ttl : ℕ

-- The errors of SyncOnce: a failed fetch comes with the routes that a repair from the cache
-- reported as failed, or with the expiry of the cache.
pub data SyncError : Type 0 where
  fetch : SyncError
  fetch_repaired : List Text → SyncError
  fetch_expired : SyncError
  negative_revision revision_rollback changed_without_advance : SyncError
  report : SyncError

pub data Accepted : Type 0 where
  accepted_as : Syncer → Accepted
  rejected : SyncError → Accepted

unfoldable pub normalized_route : Route → Route
normalized_route r = record r {
  observed_revision = pos 0;
  local_status = [];
  tunnel_status = [];
  last_error = [];
  agent_last_seen_at = 0;
  public_status = [];
  created_at = 0;
  updated_at = 0;
}

unfoldable pub normalized_desired_execution : Desired → Desired
unfolding normalized_route
normalized_desired_execution d = record d { routes = map normalized_route d.routes }

-- reflect.DeepEqual
unfoldable pub same_route : Route → Route → Bool
unfolding ◌==◌ protocol_eq
same_route a b =
    a.id == b.id
    && a.client_id == b.client_id
    && a.name == b.name
    && protocol_eq a.protocol b.protocol
    && a.domain == b.domain
    && a.path_prefix == b.path_prefix
    && bool_eq a.strip_path b.strip_path
    && a.local_host == b.local_host
    && int_eq a.local_port b.local_port
    && int_eq a.remote_port b.remote_port
    && int_eq a.public_port b.public_port
    && a.tunnel_group == b.tunnel_group
    && bool_eq a.enabled b.enabled
    && int_eq a.desired_revision b.desired_revision
    && int_eq a.observed_revision b.observed_revision
    && a.local_status == b.local_status
    && a.tunnel_status == b.tunnel_status
    && a.last_error == b.last_error
    && nat_eq a.agent_last_seen_at b.agent_last_seen_at
    && a.public_status == b.public_status
    && nat_eq a.created_at b.created_at
    && nat_eq a.updated_at b.updated_at

unfoldable pub same_routes : List Route → List Route → Bool
unfolding same_route
same_routes [] [] = true
same_routes (a ∷ l) (b ∷ m) = same_route a b && same_routes l m
same_routes _ _ = false

unfoldable pub same_desired : Desired → Desired → Bool
unfolding same_routes
same_desired a b =
    int_eq a.revision b.revision && bool_eq a.is_nil b.is_nil && same_routes a.routes b.routes

unfoldable pub accept_desired : Desired → Syncer → Accepted
unfolding normalized_desired_execution same_desired
accept_desired d s =
    if ltb_ℤ d.revision (pos 0) then rejected negative_revision else elim s.accepted [
      | none ↦ accepted_as (record s { accepted = some (normalized_desired_execution d) })
      | some before ↦
          if ltb_ℤ d.revision before.revision
          then rejected revision_rollback
          else if int_eq d.revision before.revision
          then (if same_desired (normalized_desired_execution d) before
              then accepted_as s
              else rejected changed_without_advance)
          else accepted_as (record s { accepted = some (normalized_desired_execution d) })
    ]

-- cachedReconcileError: the routes that it names.
unfoldable pub cached_reconcile_error : Observed → List Text
unfolding ◌==◌
cached_reconcile_error observed =
    map (λ o. o.route_id)
      (keep
        (λ o.
          not (o.message == [] && not (is_error o.tunnel_status) && not (is_error o.local_status)))
        observed.routes)

module _ {W : Type 0} (client : Client W) (now : Time) where
  -- The branch of SyncOnce for a fetch that failed. An age below zero counts as zero.
  unfoldable pub fetch_failure : Bool → Syncer → W → SyncError × Syncer × W
  unfolding cached_reconcile_error
  fetch_failure recoverable s w =
      let dropped = record s { cached = none } in
      let live = not (client.is_cancelled w) in
      let uncached : SyncError × Syncer × W =
        (fetch, (if not recoverable && live then dropped else s), w) in
      elim s.cached [
        | none ↦ uncached
        | some (desired, cached_at) ↦
            let repair = client.reconcile desired w in
            if recoverable && live
            then (if leb (now - cached_at) s.desired_cache_ttl
                then (fetch_repaired (cached_reconcile_error repair.0), s, repair.1)
                else (fetch_expired, dropped, w))
            else uncached
      ]

  -- The rest of SyncOnce once the desired state is accepted.
  unfoldable pub apply_desired : Desired → Syncer → W → Option SyncError × Syncer × W
  apply_desired d s w =
      let cached = record s { cached = some (d, now) } in
      let run = client.reconcile d w in
      let call = client.report_observed run.0 run.1 in
      if call.0
      then (none, record cached { observed_revision = run.0.revision }, call.1)
      else (some report, cached, call.1)

  abbrev pub after_accept : Desired → Accepted → Syncer → W → Option SyncError × Syncer × W
  unfolding apply_desired
  after_accept d (rejected e) s w = (some e, s, w)
  after_accept d (accepted_as s') s w = apply_desired d s' w

  unfoldable pub sync_once : Syncer → W → Option SyncError × Syncer × W
  unfolding fetch_failure accept_desired after_accept
  sync_once s w =
      let call = client.fetch_desired s.observed_revision w in
      elim call.0 [
        | fetch_failed recoverable ↦
            let f = fetch_failure recoverable s call.1 in (some f.0, f.1, f.2)
        | fetched d ↦ after_accept d (accept_desired d s) s call.1
      ]
