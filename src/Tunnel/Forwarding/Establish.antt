-- ===== src/Tunnel/Forwarding/Establish.antt =====
-- When a route's forward is reported as up.
use portloom.Maps.{map_get, map_put, map_remove}
use portloom.Maps.Laws.{map_get-map_put, map_get-map_remove}
use portloom.Prelude.{
  Bool, Bool-cases, List, Option-cases, Text, ap, codes, false, inl, inr, int_eq_iff, none, refl,
  some, sym, text_eq_iff, true, ◌++◌, ◌==◌, ◌∙◌, ◌≡◌,
}
use portloom.Tunnel.{Forward, Reconciler, Runner, Status, same_forward, up}
use portloom.Tunnel.Forwarding.{
  Outcome, cancel_route, establish, is_current, open_forward, with_master,
}

same_forward_refl : (f : Forward) → same_forward f f ≡ true
unfolding same_forward
same_forward_refl f =
    rw
      (
        (text_eq_iff f.bind_host f.bind_host).1 refl,
        (int_eq_iff f.remote_port f.remote_port).1 refl,
        (text_eq_iff f.local_host f.local_host).1 refl,
        (int_eq_iff f.local_port f.local_port).1 refl,
      )
      refl

is_current-put :
    (id : Text) (f : Forward) (m : List (Text × Forward))
    → is_current f (map_get ◌==◌ id (map_put ◌==◌ id f m)) ≡ true
unfolding is_current same_forward
is_current-put id f m =
    ap (is_current f) (map_get-map_put ◌==◌ id f m ((text_eq_iff id id).1 refl))
    ∙ same_forward_refl f

is_current-remove :
    (id : Text) (f : Forward) (m : List (Text × Forward))
    → is_current f (map_get ◌==◌ id (map_remove ◌==◌ id m)) ≡ false
unfolding is_current
is_current-remove id f m = ap (is_current f) (map_get-map_remove ◌==◌ id m)

abbrev pub is_up : Status → Bool
is_up up = true
is_up _ = false

module _ {W : Type 0} (runner : Runner W) (id : Text) (f : Forward) where
  abbrev active_in : Reconciler W → Bool
  active_in r = is_current f (map_get ◌==◌ id r.active)

  -- The outcome reports the tunnel as up exactly where the forward is active afterwards.
  abbrev Agrees : Outcome W → Type 0
  Agrees o = is_up o.observation.tunnel_status ≡ active_in o.reconciler

  open_forward-Agrees :
      (r : Reconciler W) → active_in r ≡ false → Agrees (open_forward runner id f r)
  unfolding open_forward
  open_forward-Agrees r idle = elim (Option-cases (runner.forward f r.world).0) [
    | inl sent ↦ simp (sent, open_forward) (sym (is_current-put id f r.active))
    | inr (m, failed) ↦ simp (failed, open_forward) (sym idle)
  ]

  with_master-Agrees : (r : Reconciler W) → active_in r ≡ false → Agrees (with_master runner id f r)
  unfolding with_master
  with_master-Agrees r idle = elim (Bool-cases r.master_ready) [
    | inl ready ↦ simp ready (open_forward-Agrees r idle)
    | inr cold ↦ elim (Option-cases (runner.ensure_master r.world).0) [
      | inl started ↦
          simp (cold, started)
            (open_forward-Agrees
              (record r { master_ready = true; world = (runner.ensure_master r.world).1 }) idle)
      | inr (m, failed) ↦ simp (cold, failed) (sym idle)
    ]
  ]

  cancel_route-idle :
      (r : Reconciler W)
      → (cancel_route runner id r).0 ≡ none
      → active_in (cancel_route runner id r).1 ≡ false
  unfolding cancel_route is_current
  cancel_route-idle r done = elim (Option-cases (map_get ◌==◌ id r.active)) [
    | inl absent ↦ simp (cancel_route, absent) refl
    | inr (g, there) ↦ elim (Option-cases (runner.cancel g r.world).0) [
      | inl gone ↦ simp (cancel_route, there, gone) (is_current-remove id f r.active)
      | inr (m, failed) ↦
          let h : (cancel_route runner id r).0
              ≡ some (codes "cancel route " ++ id ++ codes ": " ++ m) =
            simp (cancel_route, there, failed) refl in
          cc
    ]
  ]

  -- A cancellation that fails keeps the forwards.
  cancel_route-failed :
      (r : Reconciler W) {m : Text}
      → (cancel_route runner id r).0 ≡ some m
      → (cancel_route runner id r).1.active ≡ r.active
  unfolding cancel_route
  cancel_route-failed r {m} done = elim (Option-cases (map_get ◌==◌ id r.active)) [
    | inl absent ↦ simp (cancel_route, absent) refl
    | inr (g, there) ↦ elim (Option-cases (runner.cancel g r.world).0) [
      | inl gone ↦
          let h : (cancel_route runner id r).0 ≡ none = simp (cancel_route, there, gone) refl in cc
      | inr (m', failed) ↦ simp (cancel_route, there, failed) refl
    ]
  ]

  -- establish reports the tunnel as up exactly where the wanted forward is active afterwards,
  -- whichever of the calls to the SSH client fail.
  pub establish-up_iff :
      (r : Reconciler W)
      → is_up (establish runner id f r).observation.tunnel_status
        ≡ is_current f (map_get ◌==◌ id (establish runner id f r).reconciler.active)
  unfolding establish
  establish-up_iff r = elim (Bool-cases (is_current f (map_get ◌==◌ id r.active))) [
    | inl current ↦ simp current refl
    | inr idle ↦ elim (Option-cases (cancel_route runner id r).0) [
      | inl gone ↦
          simp (idle, gone)
            (with_master-Agrees (cancel_route runner id r).1 (cancel_route-idle r gone))
      | inr (m, failed) ↦
          simp (idle, failed)
            (sym (ap (λ l. is_current f (map_get ◌==◌ id l)) (cancel_route-failed r failed) ∙ idle))
    ]
  ]
