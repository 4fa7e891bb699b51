-- ===== src/Tcpedge/Limits.antt =====
-- The limits on connections, internal/tcpedge/manager.go's acquireSlot and releaseSlot.
use portloom.Prelude.{Bool-cases, arith, false, inl, inr, ltb, refl, true, ◌+◌, ◌-◌, ◌≡◌, ◌≤◌, ◌⊎◌}
use portloom.Tcpedge.{
  Slots, acquire_slot, give_global, give_route, release_slot, take_global, take_route,
}

-- Taking a slot of each channel and giving both back.
give-take : (s : Slots) → s.global_taken + 1 - 1 ≡ s.global_taken
give-take s = omega arith

give_route-take : (s : Slots) → s.route_taken + 1 - 1 ≡ s.route_taken
give_route-take s = omega arith

-- acquireSlot stays within both limits; where it takes a slot, it takes one of each channel and
-- releaseSlot gives the same slots back; where it takes none, the global slot that it may have taken
-- is given back, and one of the channels was full.
pub acquire_slot-limits :
    (s : Slots)
    → s.global_taken ≤ s.global_limit
    → s.route_taken ≤ s.route_limit
    → ((acquire_slot s).1.global_taken ≤ s.global_limit)
      × ((acquire_slot s).1.route_taken ≤ s.route_limit)
      × ((acquire_slot s).0 ≡ true
          → ((acquire_slot s).1.route_taken ≡ s.route_taken + 1)
            × (release_slot (acquire_slot s).1 ≡ s))
      × ((acquire_slot s).0 ≡ false
          → ((acquire_slot s).1 ≡ s)
            × ((s.global_taken ≡ s.global_limit) ⊎ (s.route_taken ≡ s.route_limit)))
unfolding acquire_slot release_slot take_global take_route give_global give_route
acquire_slot-limits s g r = elim (Bool-cases (ltb s.global_taken s.global_limit)) [
  | inr full ↦ simp full (g, r, (λ e. cc), λ e. (refl, inl (ground arith)))
  | inl free ↦ elim (Bool-cases (ltb s.route_taken s.route_limit)) [
    | inl open_route ↦
        simp (free, open_route)
          (
            ground arith,
            ground arith,
            (λ e. (refl, simp (give-take s, give_route-take s) refl)),
            λ e. cc,
          )
    | inr full ↦
        simp (free, full)
          (ground arith, r, (λ e. cc), λ e. (simp (give-take s) refl, inr (ground arith)))
  ]
]
