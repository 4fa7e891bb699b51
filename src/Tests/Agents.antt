-- ===== src/Tests/Agents.antt =====
-- Runs of internal/agent. The outside world counts the calls.
use portloom.Domain.Route.{second}
use portloom.Maps.{map_get}
use portloom.Prelude.{
  All, Option, Text, [], any, codes, false, inl, none, pos, refl, some, suc, true, ℕ, ◌*◌, ◌==◌,
  ◌∷◌, ◌≡◌, ◌≤ℤ◌,
}
use portloom.Tests.Routes.{same_case, web_route}
use portloom.Tunnel.{Desired, Forward, Reconciler, Runner, opened}
use portloom.Tunnel.Forwarding.{establish, is_current}
use portloom.Tunnel.Forwarding.Establish.{establish-up_iff, is_up}
use portloom.Tunnel.Reconcile.{reconcile}
use portloom.Tunnel.Reconcile.Master.{Reports, reconcile-master_unknown}
use portloom.Tunnel.Sync.{Syncer, accept_desired, accepted_as, normalized_desired_execution}
use portloom.Tunnel.Sync.Revisions.{accept_desired-forward, accepted_revision}

abbrev fine : ℕ → Option Text × ℕ
fine w = (none, suc w)

abbrev broken : ℕ → Option Text × ℕ
broken w = (some (codes "no answer"), suc w)

abbrev runner_with : (ℕ → Option Text × ℕ) → Runner ℕ
runner_with check = record {
  check_master = check;
  close_master = check;
  ensure_master = fine;
  forward = λ f w. (none, suc w);
  cancel = λ f w. (none, suc w);
  check_local = λ host port w. (none, suc w);
  listen_relay = λ w. (opened (pos 40000), suc w);
  close_relay = λ r w. suc w;
}

abbrev blog_forward : Forward
blog_forward = record {
  bind_host = codes "127.0.0.1";
  remote_port = pos 20000;
  local_host = codes "127.0.0.1";
  local_port = pos 8080;
}

abbrev connected : Reconciler ℕ
connected = record {
  active = (codes "r1", blog_forward) ∷ [];
  relays = [];
  master_ready = true;
  observed_revision = pos 1;
  world = 0;
}

establish-up_iff_example :
    is_up
      (establish (runner_with fine) (codes "r2") blog_forward connected).observation.tunnel_status
    ≡ is_current blog_forward (
        map_get ◌==◌
          (codes "r2")
          (establish (runner_with fine) (codes "r2") blog_forward connected).reconciler.active)
establish-up_iff_example = establish-up_iff (runner_with fine) (codes "r2") blog_forward connected

abbrev wanted : Desired
wanted = record { revision = pos 2; routes = web_route ∷ []; is_nil = false }

wanted_run : any (λ q. q.id == codes "r1") wanted.routes ≡ true
unfolding ◌==◌
wanted_run = refl

reconcile-master_unknown_example :
    let result = reconcile (runner_with broken) same_case (codes "127.0.0.1") wanted connected in
    ((message : Text) × All (Reports message) result.0.routes)
    × (any (λ o. o.route_id == codes "r1") result.0.routes ≡ true)
    × (result.0.revision ≡ pos 1)
    × (result.1 ≡ record connected { world = 2 })
reconcile-master_unknown_example =
    reconcile-master_unknown (runner_with broken) same_case (codes "127.0.0.1") wanted connected
      (codes "no answer") (codes "no answer") (codes "r1") refl refl refl (λ e. cc) (inl wanted_run)

abbrev fresh : Syncer
fresh = record {
  observed_revision = pos 0;
  accepted = none;
  cached = none;
  desired_cache_ttl = 120 * second;
}

abbrev settled : Syncer
settled = record fresh { accepted = some (normalized_desired_execution wanted) }

accept_run : accept_desired wanted fresh ≡ accepted_as settled
unfolding accept_desired
accept_run = refl

accept_desired-forward_example :
    (pos 0 ≤ℤ wanted.revision)
    × (accepted_revision fresh.accepted ≤ℤ wanted.revision)
    × (accepted_revision settled.accepted ≡ wanted.revision)
    × (settled.observed_revision ≡ fresh.observed_revision)
accept_desired-forward_example = accept_desired-forward wanted fresh settled accept_run
