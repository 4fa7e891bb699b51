-- ===== src/Tunnel/Reconcile/Master.antt =====
-- Reconcile where the state of the SSH master is not known.
use portloom.Domain.Route.{Route}
use portloom.Maps.{keys}
use portloom.Prelude.{
  All, All-append, Bool, Bool-cases, List, Text, [], any, ap, arith, codes, inl, inr, keep, map,
  not, refl, some, subst, sym, text_eq_iff, true, ℕ, ◌++◌, ◌==◌, ◌||◌, ◌∷◌, ◌≡◌, ◌≢◌, ◌⊎◌,
}
use portloom.Tests.Serving.{listed}
use portloom.Tunnel.{Desired, Observation, Reconciler, Runner, error}
use portloom.Tunnel.Reconcile.{
  failed_observation, failed_routes, master_failure_observed, reconcile,
}

abbrev pub Reports : Text → Observation → Type 0
Reports m o = (o.local_status ≡ error) × (o.tunnel_status ≡ error) × (o.message ≡ m)

failed_routes-Reports :
    (m : Text) (routes : List Route) (seen : List Text)
    → All (Reports m) (failed_routes m routes seen).0
unfolding failed_routes
failed_routes-Reports m [] seen = tt
failed_routes-Reports m (route ∷ routes) seen =
    elim (Bool-cases (route.id == [] || any (λ id. id == route.id) seen)) [
      | inl h ↦ rw h (failed_routes-Reports m routes seen)
      | inr h ↦ rw h ((refl, refl, refl), failed_routes-Reports m routes (route.id ∷ seen))
    ]

map-Reports : (m : Text) (ids : List Text) → All (Reports m) (map (failed_observation m) ids)
map-Reports m [] = tt
map-Reports m (id ∷ ids) = ((refl, refl, refl), map-Reports m ids)

master_failure_observed-Reports :
    {W : Type 0} (desired : Desired) (r : Reconciler W) (m : Text)
    → All (Reports m) (master_failure_observed desired r m).routes
unfolding master_failure_observed
master_failure_observed-Reports desired r m =
    All-append (Reports m) (failed_routes m desired.routes []).0 _
      (failed_routes-Reports m desired.routes []) (map-Reports m _)

master_failure_observed-revision :
    {W : Type 0} (desired : Desired) (r : Reconciler W) (m : Text)
    → (master_failure_observed desired r m).revision ≡ r.observed_revision
unfolding master_failure_observed
master_failure_observed-revision desired r m = refl

-- What is seen of the routes, once it is listed, stays listed.
module _ (m id : Text) where
  failed_routes-seen :
      (routes : List Route) (seen : List Text)
      → any (λ s. s == id) seen ≡ true
      → any (λ s. s == id) (failed_routes m routes seen).1 ≡ true
  unfolding failed_routes
  failed_routes-seen [] seen h = h
  failed_routes-seen (route ∷ routes) seen h =
      elim (Bool-cases (route.id == [] || any (λ q. q == route.id) seen)) [
        | inl skip ↦ rw skip (failed_routes-seen routes seen h)
        | inr new ↦ rw new (failed_routes-seen routes (route.id ∷ seen) (ground arith))
      ]

  -- Every route with an identifier is seen.
  failed_routes-all :
      (routes : List Route) (seen : List Text)
      → id ≢ []
      → any (λ q. q.id == id) routes ≡ true
      → any (λ s. s == id) (failed_routes m routes seen).1 ≡ true
  unfolding failed_routes
  failed_routes-all [] seen named h = cc
  failed_routes-all (route ∷ routes) seen named h =
      elim (Bool-cases (route.id == [] || any (λ q. q == route.id) seen)) [
        | inl skip ↦ elim (Bool-cases (route.id == id)) [
          | inl e ↦
              let same = (text_eq_iff route.id id).0 e in
              let there : any (λ s. s == id) seen ≡ true =
                subst (λ x. any (λ s. s == x) seen ≡ true) same
                  (ground (arith, text_eq_iff route.id [], text_eq_iff route.id id, named)) in
              rw skip (failed_routes-seen routes seen there)
          | inr e ↦ rw skip (failed_routes-all routes seen named (ground arith))
        ]
        | inr new ↦ elim (Bool-cases (route.id == id)) [
          | inl e ↦ rw new (failed_routes-seen routes (route.id ∷ seen) (ground arith))
          | inr e ↦ rw new (failed_routes-all routes (route.id ∷ seen) named (ground arith))
        ]
      ]

  -- What is seen was seen before or is reported.
  failed_routes-reported :
      (routes : List Route) (seen : List Text)
      → any (λ s. s == id) (failed_routes m routes seen).1 ≡ true
      → (any (λ s. s == id) seen || any (λ o. o.route_id == id) (failed_routes m routes seen).0)
        ≡ true
  unfolding failed_routes
  failed_routes-reported [] seen h = ground arith
  failed_routes-reported (route ∷ routes) seen h =
      elim (Bool-cases (route.id == [] || any (λ q. q == route.id) seen)) [
        | inl skip ↦ ground (arith, failed_routes-reported routes seen)
        | inr new ↦ ground (arith, failed_routes-reported routes (route.id ∷ seen))
      ]

  any-failed :
      (ids : List Text)
      → any (λ o. o.route_id == id) (map (failed_observation m) ids) ≡ any (λ s. s == id) ids
  any-failed [] = refl
  any-failed (x ∷ ids) = ap ((x == id) ||◌) (any-failed ids)

  any-keep :
      (p : Text → Bool) (ids : List Text)
      → p id ≡ true
      → any (λ s. s == id) ids ≡ true
      → any (λ s. s == id) (keep p ids) ≡ true
  any-keep p [] passes h = cc
  any-keep p (x ∷ ids) passes h = elim (Bool-cases (x == id)) [
    | inl e ↦
        let same = (text_eq_iff x id).0 e in
        rw (subst (λ y. p y ≡ true) (sym same) passes) (ground arith)
    | inr e ↦ elim (Bool-cases (p x)) [
      | inl k ↦ rw k (ground (arith, any-keep p ids passes))
      | inr k ↦ rw k (any-keep p ids passes (ground arith))
    ]
  ]

any-append :
    (p : Observation → Bool) (l k : List Observation) → any p (l ++ k) ≡ (any p l || any p k)
any-append p [] k = refl
any-append p (x ∷ l) k = ground (arith, any-append p l k)

-- A route that is desired, or whose forward is active, is reported.
master_failure_observed-all :
    {W : Type 0} (desired : Desired) (r : Reconciler W) (m id : Text)
    → id ≢ []
    → (any (λ q. q.id == id) desired.routes ≡ true) ⊎ (any (λ k. k == id) (keys r.active) ≡ true)
    → any (λ o. o.route_id == id) (master_failure_observed desired r m).routes ≡ true
unfolding master_failure_observed
master_failure_observed-all desired r m id named listed =
    let l = failed_routes m desired.routes [] in
    let others = keep (λ x. not (any (λ s. s == x) l.1)) (keys r.active) in
    let split = any-append (λ o. o.route_id == id) l.0 (map (failed_observation m) others) in
    let more = any-failed m id others in
    let reported = failed_routes-reported m id desired.routes [] in
    elim (Bool-cases (any (λ s. s == id) l.1)) [
      | inl e ↦ let k = reported e in ground arith
      | inr e ↦ elim listed [
        | inl d ↦ let k = failed_routes-all m id desired.routes [] named d in absurd (ground arith)
        | inr d ↦
            let k =
              any-keep m id (λ x. not (any (λ s. s == x) l.1)) (keys r.active) (ground arith) d in
            ground arith
      ]
    ]

-- Where the master connection was ready, is found not to answer and cannot be closed, Reconcile
-- reports an error, in one message, for every desired route and every active forward that has an
-- identifier, and nothing without an error, at the revision observed before, and keeps its forwards, its relays,
-- the revision and the readiness of the master.
pub reconcile-master_unknown :
    {W : Type 0} (runner : Runner W) (unicode_lower : ℕ → ℕ) (host : Text) (desired : Desired)
    (r : Reconciler W) (m n id : Text)
    → r.master_ready ≡ true
    → (runner.check_master r.world).0 ≡ some m
    → (runner.close_master (runner.check_master r.world).1).0 ≡ some n
    → id ≢ []
    → (any (λ q. q.id == id) desired.routes ≡ true) ⊎ (any (λ k. k == id) (keys r.active) ≡ true)
    → let result = reconcile runner unicode_lower host desired r in
      ((message : Text) × All (Reports message) result.0.routes)
      × (any (λ o. o.route_id == id) result.0.routes ≡ true)
      × (result.0.revision ≡ r.observed_revision)
      × (result.1 ≡ record r { world = (runner.close_master (runner.check_master r.world).1).1 })
unfolding reconcile
reconcile-master_unknown runner unicode_lower host desired r m n id ready failed stuck named
      listed =
    let message =
      codes "SSH ControlMaster state is unknown: check failed: "
      ++ m
      ++ codes "; close failed: "
      ++ n in
    simp (ready, failed, stuck)
      (
        (message, master_failure_observed-Reports desired r message),
        master_failure_observed-all desired r message id named listed,
        master_failure_observed-revision desired r message,
        refl,
      )
