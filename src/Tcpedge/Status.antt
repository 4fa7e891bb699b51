-- ===== src/Tcpedge/Status.antt =====
-- What PublicStatus reports.
use portloom.Domain.Agent.{Time}
use portloom.Domain.Route.{Protocol, Route}
use portloom.Maps.{map_get}
use portloom.Prelude.{Bool, List, Option-cases, Text, arith, inl, inr, some, true, ℕ, ℤ, ◌==◌, ◌≡◌}
use portloom.Tcpedge.{
  Manager, Publication, Worker, is_candidate, is_running, public_status, published,
}

module _ (sha256 : Text → List ℕ) (listens : Protocol × ℤ → Bool) (running : Worker → Bool) where
  -- A route is reported as published only if it is a stream route that is to be published now and
  -- a worker that still runs was recorded for it.
  pub public_status-published :
      (now : Time) (m : Manager) (r : Route)
      → public_status sha256 listens running now m r ≡ some published
      → (is_candidate now r ≡ true)
        × ((p : Publication) × (map_get ◌==◌ r.id m.statuses ≡ some p)
            × (is_running sha256 listens running p.worker ≡ true))
  unfolding public_status
  public_status-published now m r h = elim (Option-cases (map_get ◌==◌ r.id m.statuses)) [
    | inl absent ↦ absurd (ground arith)
    | inr (p, found) ↦ (ground arith, (p, found, ground arith))
  ]
