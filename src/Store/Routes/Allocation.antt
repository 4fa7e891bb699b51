-- ===== src/Store/Routes/Allocation.antt =====
-- allocatePort finds the lowest free port of the range.
use portloom.Domain.Route.{Route}
use portloom.Prelude.{
  All, Bool, Bool-cases, List, [], any, arith, false, inl, inr, int_eq, int_eq_iff, nat_eq,
  nat_eq_iff, none, not, pos, refl, some, subst, suc, sym, true, zero, ℕ, ◌&&◌, ◌+◌, ◌-◌, ◌<◌, ◌∷◌,
  ◌≡◌, ◌≢◌, ◌≤◌,
}
use portloom.Store.Db.{Db, Options}
use portloom.Store.Routes.{allocate_from, allocate_port}

-- No route has the port, and the operating system lets it be bound.
pub record IsFree (available : ℕ → Bool) (routes : List Route) (port : ℕ) : Type 0 where
  pub unused : All (λ r. r.remote_port ≢ pos port) routes
  pub bindable : available port ≡ true

unused_of_any :
    (routes : List Route) (port : ℕ)
    → any (λ r. int_eq r.remote_port (pos port)) routes ≡ false
    → All (λ r. r.remote_port ≢ pos port) routes
unused_of_any [] port h = tt
unused_of_any (r ∷ rs) port h = (
  (λ e. ground (arith, (int_eq_iff r.remote_port (pos port)).1 e)),
  unused_of_any rs port (ground arith),
)

any_of_unused :
    (routes : List Route) (port : ℕ)
    → All (λ r. r.remote_port ≢ pos port) routes
    → any (λ r. int_eq r.remote_port (pos port)) routes ≡ false
any_of_unused [] port h = refl
any_of_unused (r ∷ rs) port (p, h) = elim (Bool-cases (int_eq r.remote_port (pos port))) [
  | inl e ↦ absurd (p ((int_eq_iff r.remote_port (pos port)).0 e))
  | inr e ↦ rw e (any_of_unused rs port h)
]

module _ (available : ℕ → Bool) (routes : List Route) where
  abbrev used : ℕ → Bool
  used port = any (λ r. int_eq r.remote_port (pos port)) routes

  not-IsFree :
      (port : ℕ) → (not (used port) && available port) ≡ false → ¬ (IsFree available routes port)
  not-IsFree port e f = ground (arith, any_of_unused routes port f.unused, f.bindable)

  not-IsFree_at :
      (port q : ℕ)
      → (not (used port) && available port) ≡ false
      → nat_eq port q ≡ true
      → ¬ (IsFree available routes q)
  not-IsFree_at port q e s f =
      not-IsFree port e (subst (IsFree available routes) (sym ((nat_eq_iff port q).0 s)) f)

  allocate_from-some :
      (fuel port p : ℕ)
      → allocate_from available routes fuel port ≡ some p
      → (port ≤ p)
        × (p < port + fuel)
        × IsFree available routes p
        × ((q : ℕ) → port ≤ q → q < p → ¬ (IsFree available routes q))
  unfolding allocate_from
  allocate_from-some zero port p h = cc
  allocate_from-some (suc fuel) port p h = elim (Bool-cases (not (used port) && available port)) [
    | inl e ↦
        let same : port ≡ p = ground arith in
        (
          omega arith,
          omega arith,
          record {
            unused =
                subst (λ n. All (λ r. r.remote_port ≢ pos n) routes) same
                  (unused_of_any routes port (ground arith));
            bindable = subst (λ n. available n ≡ true) same (ground arith);
          },
          λ q a b. absurd (omega arith),
        )
    | inr e ↦
        let (low, high, free, least) = allocate_from-some fuel (port + 1) p (ground arith) in
        (
          omega arith,
          omega arith,
          free,
          λ q a b. elim (Bool-cases (nat_eq port q)) [
            | inl s ↦ not-IsFree_at port q e s
            | inr s ↦ least q (ground arith) b
          ],
        )
  ]

  allocate_from-none :
      (fuel port : ℕ)
      → allocate_from available routes fuel port ≡ none
      → (q : ℕ) → port ≤ q
      → q < port + fuel
      → ¬ (IsFree available routes q)
  unfolding allocate_from
  allocate_from-none zero port h q a b = absurd (omega arith)
  allocate_from-none (suc fuel) port h q a b =
      elim (Bool-cases (not (used port) && available port)) [
        | inl e ↦ absurd (ground arith)
        | inr e ↦ elim (Bool-cases (nat_eq port q)) [
          | inl s ↦ not-IsFree_at port q e s
          | inr s ↦ allocate_from-none fuel (port + 1) (ground arith) q (ground arith) (omega arith)
        ]
      ]

module _ (options : Options) (available : ℕ → Bool) (db : Db) where
  -- An allocated port lies in the range, no route has it, it can be bound, and it is the lowest
  -- such port.
  pub allocate_port-IsFree :
      (p : ℕ)
      → allocate_port options available db ≡ some p
      → (options.port_range_start ≤ p)
        × (p ≤ options.port_range_end)
        × IsFree available db.routes p
        × ((q : ℕ) → options.port_range_start ≤ q → q < p → ¬ (IsFree available db.routes q))
  unfolding allocate_port
  allocate_port-IsFree p h =
      let (low, high, free, least) =
        allocate_from-some available db.routes
          (options.port_range_end + 1 - options.port_range_start) options.port_range_start p h in
      (low, omega arith, free, least)

  -- The range is reported as exhausted only if it has no free port.
  pub allocate_port-none :
      allocate_port options available db ≡ none
      → (q : ℕ) → options.port_range_start ≤ q
      → q ≤ options.port_range_end
      → ¬ (IsFree available db.routes q)
  unfolding allocate_port
  allocate_port-none h q a b =
      allocate_from-none available db.routes (options.port_range_end + 1 - options.port_range_start)
        options.port_range_start h q a (omega arith)
