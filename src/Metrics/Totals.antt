-- ===== src/Metrics/Totals.antt =====
-- The totals against the counters of the routes.
use portloom.Metrics.{
  Counters, Registry, add_counters, add_route, forget, new, no_counters, observe,
}
use portloom.Prelude.{
  Bool, Bool-cases, List, Text, [], add_int64, all, arith, inl, inr, keep, not, refl, subst, sym, ℕ,
  ◌+◌, ◌<◌, ◌==◌, ◌∙◌, ◌∷◌, ◌≡◌, ◌≤◌,
}

pub data Event : Type 0 where
  observed : Text → ℕ → ℕ → ℕ → ℕ → Event
  forgotten : Text → Event

-- `observed id minute requests bytes_in bytes_out`
unfoldable pub step : Registry → Event → Registry
step r (observed id minute requests bytes_in bytes_out) =
    observe r minute id requests bytes_in bytes_out
step r (forgotten id) = forget r id

unfoldable pub steps : Registry → List Event → Registry
steps r [] = r
steps r (e ∷ es) = steps (step r e) es

-- Sums that do not wrap.
abbrev plus : Counters → ℕ → ℕ → ℕ → Counters
plus c n i o = record {
  requests = c.requests + n;
  bytes_in = c.bytes_in + i;
  bytes_out = c.bytes_out + o;
}

-- The counters of all routes that are listed, added up.
abbrev pub sum_routes : List (Text × Counters) → Counters
sum_routes [] = no_counters
sum_routes ((id, c) ∷ rest) = plus (sum_routes rest) c.requests c.bytes_in c.bytes_out

-- All that was observed, added up.
abbrev pub sum_events : List Event → Counters
sum_events [] = no_counters
sum_events (observed id minute n i o ∷ es) = plus (sum_events es) n i o
sum_events (forgotten id ∷ es) = sum_events es

-- The counters stay within an int64.
pub record IsSmall (c : Counters) : Type 0 where
  pub requests : c.requests < 9223372036854775808
  pub bytes_in : c.bytes_in < 9223372036854775808
  pub bytes_out : c.bytes_out < 9223372036854775808

-- What is forgotten stays in the total.
pub record IsBounded (r : Registry) : Type 0 where
  pub requests : (sum_routes r.per_route).requests ≤ r.total.requests
  pub bytes_in : (sum_routes r.per_route).bytes_in ≤ r.total.bytes_in
  pub bytes_out : (sum_routes r.per_route).bytes_out ≤ r.total.bytes_out

Counters-eq :
    (c d : Counters)
    → c.requests ≡ d.requests
    → c.bytes_in ≡ d.bytes_in
    → c.bytes_out ≡ d.bytes_out
    → c ≡ d
Counters-eq c d a b e = cc

add_int64-small : (a b : ℕ) → a + b < 9223372036854775808 → add_int64 a b ≡ a + b
add_int64-small a b h = omega arith

add_counters-plus :
    (c : Counters) (n i o : ℕ) → IsSmall (plus c n i o) → add_counters c n i o ≡ plus c n i o
add_counters-plus c n i o h =
    simp
      (
        add_int64-small c.requests n h.requests,
        add_int64-small c.bytes_in i h.bytes_in,
        add_int64-small c.bytes_out o h.bytes_out,
      )
      refl

IsSmall-le :
    (c d : Counters)
    → c.requests ≤ d.requests
    → c.bytes_in ≤ d.bytes_in
    → c.bytes_out ≤ d.bytes_out
    → IsSmall d
    → IsSmall c
IsSmall-le c d a b e h =
    let x = h.requests in
    let y = h.bytes_in in
    let z = h.bytes_out in
    record { requests = omega arith; bytes_in = omega arith; bytes_out = omega arith }

sum_routes-add_route :
    (id : Text) (n i o : ℕ) (l : List (Text × Counters))
    → IsSmall (plus (sum_routes l) n i o)
    → sum_routes (add_route id n i o l) ≡ plus (sum_routes l) n i o
unfolding add_route
sum_routes-add_route id n i o [] h =
    let x = h.requests in
    let y = h.bytes_in in
    let z = h.bytes_out in Counters-eq _ _ (omega arith) (omega arith) (omega arith)
sum_routes-add_route id n i o ((j, c) ∷ l) h = elim (Bool-cases (j == id)) [
  | inl e ↦
      let x = h.requests in
      let y = h.bytes_in in
      let z = h.bytes_out in rw e (Counters-eq _ _ (omega arith) (omega arith) (omega arith))
  | inr e ↦
      let rest = sum_routes-add_route id n i o l (
        IsSmall-le (plus (sum_routes l) n i o) (plus (sum_routes ((j, c) ∷ l)) n i o) (omega arith)
          (omega arith) (omega arith) h) in
      rw (e, rest) (Counters-eq _ _ (omega arith) (omega arith) (omega arith))
]

module _ (p : Text × Counters → Bool) where
  sum_routes-keep :
      (l : List (Text × Counters))
      → ((sum_routes (keep p l)).requests ≤ (sum_routes l).requests)
        × ((sum_routes (keep p l)).bytes_in ≤ (sum_routes l).bytes_in)
        × ((sum_routes (keep p l)).bytes_out ≤ (sum_routes l).bytes_out)
  sum_routes-keep [] = omega arith
  sum_routes-keep ((j, c) ∷ l) = elim (Bool-cases (p (j, c))) [
    | inl e ↦ rw e (omega (arith, sum_routes-keep l))
    | inr e ↦ rw e (omega (arith, sum_routes-keep l))
  ]

-- The registry, with what is yet to come.
abbrev with_events : Registry → List Event → Counters
with_events r es = plus (sum_events es) r.total.requests r.total.bytes_in r.total.bytes_out

observe-IsBounded :
    (r : Registry) (minute : ℕ) (id : Text) (n i o : ℕ)
    → IsBounded r
    → IsSmall (plus r.total n i o)
    → IsBounded (observe r minute id n i o)
      × ((observe r minute id n i o).total ≡ plus r.total n i o)
unfolding observe
observe-IsBounded r minute id n i o h small =
    let x = h.requests in
    let y = h.bytes_in in
    let z = h.bytes_out in
    let u = small.requests in
    let v = small.bytes_in in
    let w = small.bytes_out in
    let same = sum_routes-add_route id n i o r.per_route (
      IsSmall-le (plus (sum_routes r.per_route) n i o) (plus r.total n i o) (omega arith)
        (omega arith) (omega arith) small) in
    (
      record {
        requests = rw same (omega arith);
        bytes_in = rw same (omega arith);
        bytes_out = rw same (omega arith);
      },
      add_counters-plus r.total n i o small,
    )

forget-IsBounded : (r : Registry) (id : Text) → IsBounded r → IsBounded (forget r id)
unfolding forget
forget-IsBounded r id h =
    let x = h.requests in
    let y = h.bytes_in in
    let z = h.bytes_out in
    let (a, b, c) = sum_routes-keep (λ e. not (e.0 == id)) r.per_route in
    record { requests = omega arith; bytes_in = omega arith; bytes_out = omega arith }

steps-IsBounded :
    (r : Registry) (es : List Event)
    → IsBounded r
    → IsSmall (with_events r es)
    → IsBounded (steps r es) × ((steps r es).total ≡ with_events r es)
unfolding steps step forget
steps-IsBounded r [] h small = (h, Counters-eq _ _ (omega arith) (omega arith) (omega arith))
steps-IsBounded r (observed id minute n i o ∷ es) h small =
    let (next, total) = observe-IsBounded r minute id n i o h (
      IsSmall-le (plus r.total n i o) (with_events r (observed id minute n i o ∷ es)) (omega arith)
        (omega arith) (omega arith) small) in
    let same : with_events (observe r minute id n i o) es
        ≡ with_events r (observed id minute n i o ∷ es) =
      rw total (moved (sum_events es) r.total n i o) in
    let (bounded, all) =
      steps-IsBounded (observe r minute id n i o) es next (subst IsSmall (sym same) small) in
    (bounded, all ∙ same)
  where
    moved :
        (c t : Counters) (n i o : ℕ)
        → plus c (t.requests + n) (t.bytes_in + i) (t.bytes_out + o)
          ≡ plus (plus c n i o) t.requests t.bytes_in t.bytes_out
    moved c t n i o =
        let a : c.requests + (t.requests + n) ≡ c.requests + n + t.requests = omega arith in
        let b : c.bytes_in + (t.bytes_in + i) ≡ c.bytes_in + i + t.bytes_in = omega arith in
        let d : c.bytes_out + (t.bytes_out + o) ≡ c.bytes_out + o + t.bytes_out = omega arith in cc
steps-IsBounded r (forgotten id ∷ es) h small =
    steps-IsBounded (forget r id) es (forget-IsBounded r id h) small

-- Whatever is observed and forgotten, if all that was observed adds up to less than 2 ^ 63, for
-- requests and for the bytes of both directions, then that sum is the total, and the counters of
-- the listed routes add up to no more.
pub steps-new-IsBounded :
    (es : List Event)
    → IsSmall (sum_events es)
    → IsBounded (steps new es) × ((steps new es).total ≡ sum_events es)
unfolding new
steps-new-IsBounded es small =
    let same : with_events new es ≡ sum_events es = zero_more (sum_events es) in
    let (bounded, total) = steps-IsBounded new es (omega arith) (subst IsSmall (sym same) small) in
    (bounded, total ∙ same)
  where
    zero_more : (c : Counters) → plus c 0 0 0 ≡ c
    zero_more c = Counters-eq _ _ (omega arith) (omega arith) (omega arith)
