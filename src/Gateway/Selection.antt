-- ===== src/Gateway/Selection.antt =====
-- selectRoute picks an eligible route with the longest prefix, whatever the order of the list.
use mathlib.Core.List.{Memᴰ}
use portloom.Domain.Agent.{Time}
use portloom.Domain.Route.{Route}
use portloom.Gateway.{Edge, eligible, select_from, select_route}
use portloom.Prelude.{
  All, Bool, Bool-cases, List, Text, [], arith, false, inl, inr, ltb, none, refl, some, subst, true,
  ℕ, ◌↔◌, ◌∷◌, ◌≡◌, ◌≤◌, ◌⊎◌,
}
use portloom.Strings.{len}

-- No eligible route of the list has a longer prefix.
abbrev pub Bounds : (Route → Bool) → List Route → ℕ → Type 0
Bounds p routes n = All (λ r. p r ≡ true → len r.path_prefix ≤ n) routes

-- The route is listed and eligible, and no eligible one has a longer prefix.
pub record IsBest (p : Route → Bool) (routes : List Route) (best : Route) : Type 0 where
  pub listed : Memᴰ best routes
  pub chosen : p best ≡ true
  pub longest : Bounds p routes (len best.path_prefix)

module _ (ok : Route → Bool) where
  -- A loop that holds a route ends with one, which is no shorter.
  from-some :
      (held : Route) (routes : List Route)
      → (best : Route) × (select_from ok (some held) routes ≡ some best)
        × (len held.path_prefix ≤ len best.path_prefix)
        × Bounds ok routes (len best.path_prefix)
        × ((best ≡ held) ⊎ (Memᴰ best routes × (ok best ≡ true)))
  unfolding select_from
  from-some held [] = (held, refl, omega arith, tt, inl refl)
  from-some held (r ∷ rs) = elim (Bool-cases (ok r)) [
    | inr e ↦
        let (best, found, more, bounds, where_from) = from-some held rs in
        (
          best,
          rw e found,
          more,
          ((λ t. cc), bounds),
          elim where_from [ inl same ↦ inl same | inr (m, k) ↦ inr (Memᴰ.tail m, k) ],
        )
    | inl e ↦ elim (Bool-cases (ltb (len held.path_prefix) (len r.path_prefix))) [
      | inl longer ↦
          let (best, found, more, bounds, where_from) = from-some r rs in
          (
            best,
            rw (e, longer) found,
            ground arith,
            ((λ t. more), bounds),
            elim where_from [
              | inl same ↦ inr (Memᴰ.head same, rw same e)
              | inr (m, k) ↦ inr (Memᴰ.tail m, k)
            ],
          )
      | inr shorter ↦
          let (best, found, more, bounds, where_from) = from-some held rs in
          (
            best,
            rw (e, shorter) found,
            more,
            ((λ t. ground arith), bounds),
            elim where_from [ inl same ↦ inl same | inr (m, k) ↦ inr (Memᴰ.tail m, k) ],
          )
    ]
  ]

  -- From an empty hand: no eligible route, or the best one.
  from-none :
      (routes : List Route)
      → ((select_from ok none routes ≡ none) × All (λ r. ok r ≡ false) routes)
        ⊎ ((best : Route) × (select_from ok none routes ≡ some best) × IsBest ok routes best)
  unfolding select_from
  from-none [] = inl (refl, tt)
  from-none (r ∷ rs) = elim (Bool-cases (ok r)) [
    | inl e ↦
        let (best, found, more, bounds, where_from) = from-some r rs in
        inr (
          best,
          rw e found,
          record {
            listed = elim where_from [ inl same ↦ Memᴰ.head same | inr (m, k) ↦ Memᴰ.tail m ];
            chosen = elim where_from [ inl same ↦ rw same e | inr (m, k) ↦ k ];
            longest = ((λ t. more), bounds);
          },
        )
    | inr e ↦ elim (from-none rs) [
      | inl (nothing, all_not) ↦ inl (rw e nothing, (e, all_not))
      | inr (best, found, is_best) ↦ inr (
        best,
        rw e found,
        record {
          listed = Memᴰ.tail is_best.listed;
          chosen = is_best.chosen;
          longest = ((λ t. cc), is_best.longest);
        },
      )
    ]
  ]

pub none_of :
    (p : Route → Bool) {r : Route} (l : List Route)
    → All (λ q. p q ≡ false) l
    → Memᴰ r l
    → p r ≡ true
    → ⊥
none_of p [] h m k = elim m [ ]
none_of p (q ∷ l) (fails, h) (Memᴰ.head e) k = let same : p q ≡ true = rw (← e) k in cc
none_of p (q ∷ l) (fails, h) (Memᴰ.tail m) k = none_of p l h m k

module _ (now : Time) (edge : Edge) (host path : Text) where
  -- A selected route is listed, matches the request, is ready, and no other such route has a
  -- longer prefix.
  pub select_route-IsBest :
      (routes : List Route) (best : Route)
      → select_route now routes edge host path ≡ some best
      → IsBest (eligible now edge host path) routes best
  unfolding select_route
  select_route-IsBest routes best h = elim (from-none (eligible now edge host path) routes) [
    | inl (nothing, all_not) ↦ absurd (cc)
    | inr (found_best, found, is_best) ↦
        let e : found_best ≡ best = cc in
        subst (IsBest (eligible now edge host path) routes) e is_best
  ]

  -- Nothing is selected exactly when no listed route matches the request and is ready.
  pub select_route-none_iff :
      (routes : List Route)
      → (select_route now routes edge host path ≡ none)
        ↔ All (λ r. eligible now edge host path r ≡ false) routes
  unfolding select_route
  select_route-none_iff routes = (
    λ h. elim (from-none (eligible now edge host path) routes) [
      | inl (nothing, all_not) ↦ all_not
      | inr (best, found, is_best) ↦ absurd (cc)
    ],
    λ h. elim (from-none (eligible now edge host path) routes) [
      | inl (nothing, all_not) ↦ nothing
      | inr (best, found, is_best) ↦
          absurd (none_of (eligible now edge host path) routes h is_best.listed is_best.chosen)
    ],
  )
