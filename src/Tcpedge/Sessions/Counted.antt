-- ===== src/Tcpedge/Sessions/Counted.antt =====
-- Who holds the slots of a UDP listener.
use portloom.Domain.Agent.{Time}
use portloom.Maps.{map_get}
use portloom.Maps.Laws.{IsMap, length-map_remove, map_remove-IsMap}
use portloom.Prelude.{
  Bool, Bool-cases, List, Option, Text, [], ap, arith, false, inl, inr, length, ltb, nat_eq, none,
  refl, some, subst, suc, sym, text_eq_iff, true, ℕ, ◌+◌, ◌-◌, ◌<◌, ◌==◌, ◌∙◌, ◌∷◌, ◌≡◌, ◌≤◌,
}
use portloom.Store.Db.{update_where}
use portloom.Tcpedge.{give_global, give_route, take_global, take_route}
use portloom.Tcpedge.Sessions.{
  Session, UdpWorker, begin_found, begin_session, delete_found, delete_session, end_dial,
  finish_dial, finish_found, give_back_global, give_back_route, is_session, new_session, reserve,
  settle, touch, touched,
}

-- `others` counts the slots of the global channel that other listeners hold.
pub record IsCounted (others : ℕ) (w : UdpWorker) : Type 0 where
  pub counted : w.slots.route_taken ≡ length w.sessions + w.dialing + w.releasing
  pub shared :
      w.slots.global_taken
      ≡ others + (length w.sessions + w.dialing + w.releasing) + w.holding + w.returning
  pub within : w.slots.route_taken ≤ w.slots.route_limit
  pub bounded : w.slots.global_taken ≤ w.slots.global_limit
  pub distinct : IsMap ◌==◌ text_eq_iff w.sessions

-- The steps of the goroutines of a listener, in any order, and those of other listeners on the
-- global channel.
pub data UdpStep (others : ℕ) (w : UdpWorker) : ℕ → UdpWorker → Type 0 where
  begins :
      (authorized : Bool) (client : Text)
      → UdpStep others w others (begin_session authorized client w).1
  takes_global : 0 < w.asking → UdpStep others w others (reserve w)
  takes_route : 0 < w.holding → UdpStep others w others (settle w)
  fails : 0 < w.dialing → UdpStep others w others (end_dial w)
  finishes :
      (client : Text) (backend : ℕ) (now : Time)
      → 0 < w.dialing
      → UdpStep others w others (finish_dial client backend now w)
  touches :
      (client : Text) (backend : ℕ) (now : Time) (received sent : ℕ)
      → UdpStep others w others (touch client backend now received sent w)
  deletes :
      (client : Text) (backend : ℕ) → UdpStep others w others (delete_session client backend w)
  gives_route : 0 < w.releasing → UdpStep others w others (give_back_route w)
  gives_global : 0 < w.returning → UdpStep others w others (give_back_global w)
  tells :
      (received sent : ℕ)
      → UdpStep others w others (record w { reports = (received, sent) ∷ w.reports })
  flags : UdpStep others w others (record w { stopped = true })
  other_takes :
      w.slots.global_taken < w.slots.global_limit
      → UdpStep others w
          (others + 1)
          (record w { slots = record w.slots { global_taken = w.slots.global_taken + 1 } })
  other_gives :
      0 < others
      → UdpStep others w
          (others - 1)
          (record w { slots = record w.slots { global_taken = w.slots.global_taken - 1 } })

pub data UdpReach (route_limit global_limit : ℕ) : ℕ → UdpWorker → Type 0 where
  listener_opened :
      (others : ℕ)
      → others ≤ global_limit
      → UdpReach route_limit global_limit others (record {
        sessions = [];
        asking = 0;
        holding = 0;
        dialing = 0;
        releasing = 0;
        returning = 0;
        stopped = false;
        slots = record {
          global_taken = others;
          global_limit = global_limit;
          route_taken = 0;
          route_limit = route_limit;
        };
        reports = [];
      })
  then_step :
      {others others' : ℕ} {w w' : UdpWorker}
      → UdpReach route_limit global_limit others w
      → UdpStep others w others' w'
      → UdpReach route_limit global_limit others' w'

module _ (others : ℕ) (w : UdpWorker) (h : IsCounted others w) where
  counts :
      (w.slots.route_taken ≡ length w.sessions + w.dialing + w.releasing)
      × (w.slots.global_taken
          ≡ others + (length w.sessions + w.dialing + w.releasing) + w.holding + w.returning)
      × (w.slots.route_taken ≤ w.slots.route_limit)
      × (w.slots.global_taken ≤ w.slots.global_limit)
  counts = (h.counted, h.shared, h.within, h.bounded)

  end_dial-IsCounted : 0 < w.dialing → IsCounted others (end_dial w)
  unfolding end_dial
  end_dial-IsCounted busy = record {
    counted = omega (arith, counts);
    shared = omega (arith, counts);
    within = h.within;
    bounded = h.bounded;
    distinct = h.distinct;
  }

  give_back_route-IsCounted : 0 < w.releasing → IsCounted others (give_back_route w)
  unfolding give_back_route give_route
  give_back_route-IsCounted busy = record {
    counted = omega (arith, counts);
    shared = omega (arith, counts);
    within = omega (arith, counts);
    bounded = h.bounded;
    distinct = h.distinct;
  }

  give_back_global-IsCounted : 0 < w.returning → IsCounted others (give_back_global w)
  unfolding give_back_global give_global
  give_back_global-IsCounted busy = record {
    counted = h.counted;
    shared = omega (arith, counts);
    within = h.within;
    bounded = omega (arith, counts);
    distinct = h.distinct;
  }

  reserve-IsCounted : 0 < w.asking → IsCounted others (reserve w)
  unfolding reserve take_global
  reserve-IsCounted busy = elim (Bool-cases (ltb w.slots.global_taken w.slots.global_limit)) [
    | inl free ↦ rw free (record {
      counted = h.counted;
      shared = omega (arith, counts);
      within = h.within;
      bounded = ground arith;
      distinct = h.distinct;
    })
    | inr full ↦ rw full (record {
      counted = h.counted;
      shared = h.shared;
      within = h.within;
      bounded = h.bounded;
      distinct = h.distinct;
    })
  ]

  settle-IsCounted : 0 < w.holding → IsCounted others (settle w)
  unfolding settle take_route
  settle-IsCounted busy = elim (Bool-cases (ltb w.slots.route_taken w.slots.route_limit)) [
    | inl free ↦ rw free (record {
      counted = omega (arith, counts);
      shared = omega (arith, counts);
      within = ground arith;
      bounded = h.bounded;
      distinct = h.distinct;
    })
    | inr full ↦ rw full (record {
      counted = h.counted;
      shared = omega (arith, counts);
      within = h.within;
      bounded = h.bounded;
      distinct = h.distinct;
    })
  ]

  begin_found-IsCounted :
      (authorized : Bool) (found : Option Session)
      → IsCounted others (begin_found authorized found w).1
  unfolding begin_found
  begin_found-IsCounted authorized (some s) = h
  begin_found-IsCounted true none = record {
    counted = h.counted;
    shared = h.shared;
    within = h.within;
    bounded = h.bounded;
    distinct = h.distinct;
  }
  begin_found-IsCounted false none = h

  finish_found-IsCounted :
      (client : Text) (s : Session) (stopped : Bool)
      → 0 < w.dialing
      → IsCounted others (finish_found client s stopped (map_get ◌==◌ client w.sessions) w)
  unfolding finish_found
  finish_found-IsCounted client s stopped busy = go stopped (map_get ◌==◌ client w.sessions) refl
    where
      go :
          (b : Bool) (found : Option Session)
          → map_get ◌==◌ client w.sessions ≡ found
          → IsCounted others (finish_found client s b found w)
      go true found e = end_dial-IsCounted busy
      go false (some raced) e = end_dial-IsCounted busy
      go false none e = record {
        counted = omega (arith, counts);
        shared = omega (arith, counts);
        within = h.within;
        bounded = h.bounded;
        distinct = (e, h.distinct);
      }

  delete_found-IsCounted :
      (client : Text) (backend : ℕ) (found : Option Session)
      → map_get ◌==◌ client w.sessions ≡ found
      → IsCounted others (delete_found client backend found w)
  unfolding delete_found
  delete_found-IsCounted client backend none e = h
  delete_found-IsCounted client backend (some s) e = elim (Bool-cases (nat_eq backend s.backend)) [
    | inr k ↦ rw k h
    | inl k ↦
        let shorter = length-map_remove ◌==◌ text_eq_iff client w.sessions s h.distinct e in
        rw k (record {
          counted = omega (arith, counts);
          shared = omega (arith, counts);
          within = h.within;
          bounded = h.bounded;
          distinct = map_remove-IsMap ◌==◌ text_eq_iff client w.sessions h.distinct;
        })
  ]

length-update_where :
    (p : Text × Session → Bool) (f : Text × Session → Text × Session) (l : List (Text × Session))
    → length (update_where p f l) ≡ length l
length-update_where p f [] = refl
length-update_where p f (e ∷ l) = ap suc (length-update_where p f l)

-- A change of values leaves the keys.
module _ (p : Text × Session → Bool) (f : Text × Session → Text × Session)
    (keeps : (e : Text × Session) → (f e).0 ≡ e.0) where
  map_get-update_where :
      (k : Text) (l : List (Text × Session))
      → map_get ◌==◌ k l ≡ none
      → map_get ◌==◌ k (update_where p f l) ≡ none
  map_get-update_where k [] h = refl
  map_get-update_where k (e ∷ l) h = elim (Bool-cases (p e)) [
    | inl d ↦ ground (arith, keeps e, map_get-update_where k l)
    | inr d ↦ ground (arith, map_get-update_where k l)
  ]

  update_where-IsMap :
      (l : List (Text × Session))
      → IsMap ◌==◌ text_eq_iff l
      → IsMap ◌==◌ text_eq_iff (update_where p f l)
  update_where-IsMap [] h = tt
  update_where-IsMap (e ∷ l) (fresh, h) = elim (Bool-cases (p e)) [
    | inl d ↦ rw d (
      subst (λ k. map_get ◌==◌ k (update_where p f l) ≡ none) (sym (keeps e))
          (map_get-update_where e.0 l fresh),
      update_where-IsMap l h,
    )
    | inr d ↦ rw d (map_get-update_where e.0 l fresh, update_where-IsMap l h)
  ]

touch-IsCounted :
    (others : ℕ) (w : UdpWorker) (client : Text) (backend : ℕ) (now : Time) (received sent : ℕ)
    → IsCounted others w
    → IsCounted others (touch client backend now received sent w)
unfolding touch
touch-IsCounted others w client backend now received sent h =
    let same =
      sym
        (length-update_where (is_session client backend) (touched now received sent) w.sessions) in
    record {
      counted = h.counted ∙ ap (λ n. n + w.dialing + w.releasing) same;
      shared =
          h.shared
          ∙ ap (λ n. others + (n + w.dialing + w.releasing) + w.holding + w.returning) same;
      within = h.within;
      bounded = h.bounded;
      distinct =
          update_where-IsMap (is_session client backend) (touched now received sent) (λ e. refl)
            w.sessions h.distinct;
    }

UdpStep-IsCounted :
    {others others' : ℕ} {w w' : UdpWorker}
    → UdpStep others w others' w'
    → IsCounted others w
    → IsCounted others' w'
unfolding begin_session finish_dial delete_session
UdpStep-IsCounted {others} {w = w} (begins authorized client) h =
    begin_found-IsCounted others w h authorized (map_get ◌==◌ client w.sessions)
UdpStep-IsCounted {others} {w = w} (takes_global busy) h = reserve-IsCounted others w h busy
UdpStep-IsCounted {others} {w = w} (takes_route busy) h = settle-IsCounted others w h busy
UdpStep-IsCounted {others} {w = w} (fails busy) h = end_dial-IsCounted others w h busy
UdpStep-IsCounted {others} {w = w} (finishes client backend now busy) h =
    finish_found-IsCounted others w h client (new_session backend now) w.stopped busy
UdpStep-IsCounted {others} {w = w} (touches client backend now received sent) h =
    touch-IsCounted others w client backend now received sent h
UdpStep-IsCounted {others} {w = w} (deletes client backend) h =
    delete_found-IsCounted others w h client backend (map_get ◌==◌ client w.sessions) refl
UdpStep-IsCounted {others} {w = w} (gives_route busy) h = give_back_route-IsCounted others w h busy
UdpStep-IsCounted {others} {w = w} (gives_global busy) h =
    give_back_global-IsCounted others w h busy
UdpStep-IsCounted {others} {w = w} (tells received sent) h = record {
  counted = h.counted;
  shared = h.shared;
  within = h.within;
  bounded = h.bounded;
  distinct = h.distinct;
}
UdpStep-IsCounted {others} {w = w} flags h = record {
  counted = h.counted;
  shared = h.shared;
  within = h.within;
  bounded = h.bounded;
  distinct = h.distinct;
}
UdpStep-IsCounted {others} {w = w} (other_takes free) h =
    let c = counts others w h in
    record {
      counted = h.counted;
      shared = omega arith;
      within = h.within;
      bounded = omega arith;
      distinct = h.distinct;
    }
UdpStep-IsCounted {others} {w = w} (other_gives some_held) h =
    let c = counts others w h in
    record {
      counted = h.counted;
      shared = omega arith;
      within = h.within;
      bounded = omega arith;
      distinct = h.distinct;
    }

-- However the critical sections and channel operations of the goroutines of a UDP listener follow
-- each other, the slots of the route that it holds are those of its sessions, of the backends being
-- dialed and of the calls of releaseSlot that have given none back; the global slots that are taken
-- are those of other listeners, the same ones, and one for each call that has only a global slot;
-- both stay within their limits, and no client has two sessions.
pub UdpReach-IsCounted :
    (route_limit global_limit others : ℕ) (w : UdpWorker)
    → UdpReach route_limit global_limit others w
    → IsCounted others w
UdpReach-IsCounted route_limit global_limit _ _ (listener_opened others low) = record {
  counted = refl;
  shared = omega arith;
  within = omega arith;
  bounded = low;
  distinct = tt;
}
UdpReach-IsCounted route_limit global_limit _ _ (then_step {others} {w = w} reach step) =
    UdpStep-IsCounted step (UdpReach-IsCounted route_limit global_limit others w reach)
