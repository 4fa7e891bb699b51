-- ===== src/Tcpedge/Workers.antt =====
-- Which workers are left after a reconciliation.
use mathlib.Core.List.{Memᴰ}
use portloom.Domain.Agent.{Time}
use portloom.Domain.Route.{Protocol, Route, protocol_eq_iff}
use portloom.Maps.{map_get}
use portloom.Prelude.{
  All, All-imp, Bool, Bool-cases, List, Option-cases, Text, [], all, arith, find, inl, inr,
  int_eq_iff, keep, refl, some, subst, sym, text_eq_iff, true, ℕ, ℤ, ◌∷◌, ◌≡◌,
}
use portloom.Store.Rows.{All-find, All-keep}
use portloom.Tcpedge.{
  Manager, Worker, desired_routes, first_statuses, goes_on, is_candidate, port_key, reconcile,
  same_key, same_target, start, start_missing,
}

-- The worker serves a listed stream route that is to be published now.
pub record IsWanted (now : Time) (routes : List Route) (w : Worker) : Type 0 where
  pub route : Route
  pub listed : Memᴰ route routes
  pub candidate : is_candidate now route ≡ true
  pub target : same_target w.worker_route route ≡ true

same_target_refl : (r : Route) → same_target r r ≡ true
unfolding same_target
same_target_refl r = ground (
  arith,
  (text_eq_iff r.id r.id).1 refl,
  (text_eq_iff r.client_id r.client_id).1 refl,
  (protocol_eq_iff r.protocol r.protocol).1 refl,
  (int_eq_iff r.remote_port r.remote_port).1 refl,
  (int_eq_iff r.public_port r.public_port).1 refl,
)

All-listed : (l : List Route) → All (λ r. Memᴰ r l) l
All-listed [] = tt
All-listed (r ∷ l) = (Memᴰ.head refl, All-imp l (λ q m. Memᴰ.tail m) (All-listed l))

kept_pass :
    (p : Route → Bool) (P : Route → Type 0) (l : List Route)
    → All P l
    → All (λ r. P r × (p r ≡ true)) (keep p l)
kept_pass p P [] h = tt
kept_pass p P (r ∷ l) (k, h) = elim (Bool-cases (p r)) [
  | inl e ↦ rw e ((k, e), kept_pass p P l h)
  | inr e ↦ rw e (kept_pass p P l h)
]

module _ (now : Time) (routes : List Route) where
  abbrev IsDesired : Route → Type 0
  IsDesired r = Memᴰ r routes × (is_candidate now r ≡ true)

  All-IsDesired : All IsDesired (desired_routes now routes)
  unfolding desired_routes
  All-IsDesired =
      All-keep IsDesired _ _
        (kept_pass (is_candidate now) (λ r. Memᴰ r routes) routes (All-listed routes))

  module _ (sha256 : Text → List ℕ) (listens : Protocol × ℤ → Bool) (running : Worker → Bool) where
    goes_on-IsWanted :
        (desired : List Route) (e : (Protocol × ℤ) × Worker)
        → All IsDesired desired
        → goes_on sha256 listens running desired e ≡ true
        → IsWanted now routes e.1
    unfolding goes_on
    goes_on-IsWanted desired e all h =
        elim (Option-cases (find (λ r. same_key (port_key r) e.0) desired)) [
          | inl absent ↦ absurd (ground arith)
          | inr (r, found) ↦
              let (listed, candidate) =
                All-find IsDesired (λ q. same_key (port_key q) e.0) desired all found in
              record { route = r; listed = listed; candidate = candidate; target = ground arith }
        ]

    start-route :
        (isolated : Bool) (r : Route) (w : Worker)
        → start sha256 listens running isolated r ≡ some w
        → w.worker_route ≡ r
    unfolding start
    start-route isolated r w h = ground arith

    start_missing-IsWanted :
        (desired : List Route) (m : Manager)
        → All IsDesired desired
        → All (λ e. IsWanted now routes e.1) m.workers
        → All
            (λ e. IsWanted now routes e.1)
            (start_missing sha256 listens running desired m).workers
    unfolding start_missing
    start_missing-IsWanted [] m ds ws = ws
    start_missing-IsWanted (r ∷ rs) m ((listed, candidate), ds) ws =
        elim (Option-cases (map_get same_key (port_key r) m.workers)) [
          | inr (w, there) ↦ simp (start_missing, there) (start_missing-IsWanted rs _ ds ws)
          | inl absent ↦
              elim (Option-cases (start sha256 listens running m.isolated_agent_bindings r)) [
                | inl closed ↦
                    simp (start_missing, absent, closed) (start_missing-IsWanted rs _ ds ws)
                | inr (w, started) ↦
                    let same = start-route m.isolated_agent_bindings r w started in
                    simp (start_missing, absent, started)
                      (start_missing-IsWanted rs _ ds (
                        record {
                          route = r;
                          listed = listed;
                          candidate = candidate;
                          target =
                              subst (λ q. same_target q r ≡ true) (sym same) (same_target_refl r);
                        },
                        ws,
                      ))
              ]
        ]

    kept_workers :
        (desired : List Route) (l : List ((Protocol × ℤ) × Worker))
        → All IsDesired desired
        → All (λ e. IsWanted now routes e.1) (keep (goes_on sha256 listens running desired) l)
    kept_workers desired [] ds = tt
    kept_workers desired (e ∷ l) ds = elim (Bool-cases (goes_on sha256 listens running desired e)) [
      | inl h ↦ rw h (goes_on-IsWanted desired e ds h, kept_workers desired l ds)
      | inr h ↦ rw h (kept_workers desired l ds)
    ]

    -- After a reconciliation every worker has the target of a listed stream route that is enabled,
    -- has a public port and is ready now.
    pub reconcile-IsWanted :
        (m : Manager)
        → All
            (λ e. IsWanted now routes e.1)
            (reconcile sha256 listens running now (some routes) m).workers
    unfolding reconcile
    reconcile-IsWanted m =
        let desired = desired_routes now routes in
        start_missing-IsWanted desired
          (record m {
            workers = keep (goes_on sha256 listens running desired) m.workers;
            statuses = first_statuses now routes;
          })
          All-IsDesired (kept_workers desired m.workers All-IsDesired)
