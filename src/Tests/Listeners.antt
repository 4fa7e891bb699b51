-- ===== src/Tests/Listeners.antt =====
-- Runs of internal/tcpedge.
use portloom.Domain.Route.{Protocol, Route, publication_ready_at, second, tcp}
use portloom.Maps.{map_get}
use portloom.Prelude.{
  All, Bool, List, [], arith, codes, false, pos, refl, some, true, ℤ, ◌*◌, ◌==◌, ◌∷◌, ◌≡◌, ◌≤◌, ◌⊎◌,
}
use portloom.Tcpedge.{
  Manager, Publication, Slots, Worker, acquire_slot, is_candidate, is_running, public_status,
  published, reconcile, release_slot, withheld,
}
use portloom.Tcpedge.Limits.{acquire_slot-limits}
use portloom.Tcpedge.Status.{public_status-published}
use portloom.Tcpedge.Workers.{IsWanted, reconcile-IsWanted}
use portloom.Tests.Routes.{web_route}
use portloom.Tests.Serving.{no_digest}

abbrev ssh_route : Route
ssh_route = record web_route {
  id = codes "r2";
  protocol = tcp;
  domain = [];
  path_prefix = [];
  strip_path = false;
  local_port = pos 22;
  remote_port = pos 20001;
  public_port = pos 2222;
  tunnel_group = codes "tcp";
}

abbrev idle : Manager
idle = record { isolated_agent_bindings = false; workers = []; statuses = [] }

abbrev offered : List Route
offered = web_route ∷ ssh_route ∷ []

abbrev any_port : Protocol × ℤ → Bool
any_port k = true

abbrev runs : Worker → Bool
runs w = true

reconcile-IsWanted_example :
    All
      (λ e. IsWanted (150 * second) offered e.1)
      (reconcile no_digest any_port runs (150 * second) (some offered) idle).workers
reconcile-IsWanted_example = reconcile-IsWanted (150 * second) offered no_digest any_port runs idle

abbrev ssh_worker : Worker
ssh_worker = record { worker_route = ssh_route; backend = codes "127.0.0.1:20001" }

workers_run :
    (reconcile no_digest any_port runs (150 * second) (some offered) idle).workers
    ≡ ((tcp, pos 2222), ssh_worker) ∷ []
unfolding reconcile
workers_run = refl

abbrev some_taken : Slots
some_taken = record {
  global_taken = 1023;
  global_limit = 1024;
  route_taken = 128;
  route_limit = 128;
}

acquire_slot-limits_example :
    ((acquire_slot some_taken).1.global_taken ≤ 1024)
    × ((acquire_slot some_taken).1.route_taken ≤ 128)
    × ((acquire_slot some_taken).0 ≡ true
        → ((acquire_slot some_taken).1.route_taken ≡ 129)
          × (release_slot (acquire_slot some_taken).1 ≡ some_taken))
    × ((acquire_slot some_taken).0 ≡ false
        → ((acquire_slot some_taken).1 ≡ some_taken)
          × ((some_taken.global_taken ≡ 1024) ⊎ (some_taken.route_taken ≡ 128)))
acquire_slot-limits_example = acquire_slot-limits some_taken (omega arith) (omega arith)

abbrev served : Manager
served = record {
  isolated_agent_bindings = false;
  workers = ((tcp, pos 2222), ssh_worker) ∷ [];
  statuses = (codes "r2", record { status = published; worker = some ssh_worker }) ∷ [];
}

published_run :
    public_status no_digest any_port runs (150 * second) served ssh_route ≡ some published
unfolding public_status withheld publication_ready_at
published_run = refl

public_status-published_example :
    (is_candidate (150 * second) ssh_route ≡ true)
    × ((p : Publication) × (map_get ◌==◌ (codes "r2") served.statuses ≡ some p)
        × (is_running no_digest any_port runs p.worker ≡ true))
public_status-published_example =
    public_status-published no_digest any_port runs (150 * second) served ssh_route published_run
