-- ===== src/Edge/Ports/Schemes.antt =====
-- Which ports are wanted, and with which scheme.
-- The scheme of the first route of the list that asks for a port.
use portloom.Domain.Route.{Route, protocol_text}
use portloom.Edge.Ports.{Wanted, asks_port, drop_conflicts, want, want_all}
use portloom.Maps.{map_get, map_put, map_remove}
use portloom.Maps.Laws.{
  IsMap, map_get-map_put, map_get-map_remove, map_get-map_remove_other, map_put-IsMap,
  map_remove-IsMap,
}
use portloom.Prelude.{
  Bool, Bool-cases, List, Option, Option-cases, Text, [], any, ap, arith, false, if◌then◌else◌, inl,
  inr, int_eq, int_eq_iff, none, not, refl, some, subst, sym, text_eq_iff, true, ℤ, ◌&&◌, ◌==◌,
  ◌||◌, ◌∙◌, ◌∷◌, ◌≡◌,
}

abbrev pub asks_for : ℤ → Route → Bool
asks_for port r = asks_port r && int_eq port r.public_port

abbrev pub first_scheme : ℤ → List Route → Option Text
first_scheme port [] = none
first_scheme port (r ∷ rs) =
    if asks_for port r then some (protocol_text r.protocol) else first_scheme port rs

abbrev pub disagrees : ℤ → Text → List Route → Bool
disagrees port scheme routes =
    any (λ r. asks_for port r && not (protocol_text r.protocol == scheme)) routes

abbrev or_else : Option Text → Option Text → Option Text
or_else none b = b
or_else (some a) b = some a

abbrev pub lookup : {A : Type 0} → ℤ → List (ℤ × A) → Option A
lookup port m = map_get int_eq port m

or_else-none : (a : Option Text) → or_else a none ≡ a
or_else-none none = refl
or_else-none (some a) = refl

-- A write to the map of the wanted ports, read at the same port and at another.
put-same :
    (port : ℤ) (scheme : Text) (m : List (ℤ × Text))
    → lookup port (map_put int_eq port scheme m) ≡ some scheme
put-same port scheme m = map_get-map_put int_eq port scheme m ((int_eq_iff port port).1 refl)

pub put-other :
    {A : Type 0} (port key : ℤ) (a : A) (m : List (ℤ × A))
    → int_eq port key ≡ false
    → lookup port (map_put int_eq key a m) ≡ lookup port m
put-other port key a m apart =
    rw apart (map_get-map_remove_other int_eq int_eq_iff port key m apart)

want-own :
    (w : Wanted) (r : Route)
    → asks_port r ≡ true
    → lookup r.public_port (want w r).desired
      ≡ or_else (lookup r.public_port w.desired) (some (protocol_text r.protocol))
unfolding want
want-own w r asked =
    let port = r.public_port in
    let scheme = protocol_text r.protocol in
    elim (Option-cases (lookup port w.desired)) [
      | inl e ↦ rw (asked, e) (put-same port scheme w.desired)
      | inr (existing, e) ↦ elim (Bool-cases (existing == scheme)) [
        | inl h ↦
            rw (asked, e, h)
              (put-same port scheme w.desired ∙ ap some (sym ((text_eq_iff existing scheme).0 h)))
        | inr h ↦ rw (asked, e, h) e
      ]
    ]

want-other :
    (port : ℤ) (w : Wanted) (r : Route)
    → int_eq port r.public_port ≡ false
    → lookup port (want w r).desired ≡ lookup port w.desired
unfolding want
want-other port w r apart =
    let scheme = protocol_text r.protocol in
    let put = put-other port r.public_port scheme w.desired apart in
    elim (Bool-cases (asks_port r)) [
      | inr asked ↦ rw asked refl
      | inl asked ↦ elim (Option-cases (lookup r.public_port w.desired)) [
        | inl e ↦ rw (asked, e) put
        | inr (existing, e) ↦ elim (Bool-cases (existing == scheme)) [
          | inl h ↦ rw (asked, e, h) put
          | inr h ↦ rw (asked, e, h) refl
        ]
      ]
    ]

want-unasked : (w : Wanted) (r : Route) → asks_port r ≡ false → want w r ≡ w
unfolding want
want-unasked w r unasked = rw unasked refl

or_else-if :
    (b : Bool) (a : Option Text) (x : Text) (c : Option Text)
    → or_else (or_else a (if b then some x else none)) c ≡ or_else a (if b then some x else c)
or_else-if true none x c = refl
or_else-if false none x c = refl
or_else-if b (some a) x c = refl

want-desired :
    (port : ℤ) (w : Wanted) (r : Route)
    → lookup port (want w r).desired
      ≡ or_else
          (lookup port w.desired)
          (if asks_for port r then some (protocol_text r.protocol) else none)
want-desired port w r = elim (Bool-cases (int_eq port r.public_port)) [
  | inr apart ↦ ground (arith, want-other port w r apart, or_else-none (lookup port w.desired))
  | inl same ↦ elim (Bool-cases (asks_port r)) [
    | inl asked ↦
        let eq = (int_eq_iff port r.public_port).0 same in
        subst
          (λ p.
            lookup p (want w r).desired
            ≡ or_else (lookup p w.desired)
                (if asks_for port r then some (protocol_text r.protocol) else none))
          (sym eq) (rw (asked, same) (want-own w r asked))
    | inr asked ↦ ground (arith, want-unasked w r asked, or_else-none (lookup port w.desired))
  ]
]

want_all-desired :
    (port : ℤ) (w : Wanted) (routes : List Route)
    → lookup port (want_all w routes).desired
      ≡ or_else (lookup port w.desired) (first_scheme port routes)
unfolding want_all
want_all-desired port w [] = sym (or_else-none (lookup port w.desired))
want_all-desired port w (r ∷ rs) =
    want_all-desired port (want w r) rs
    ∙ rw (want-desired port w r) (
        or_else-if (asks_for port r) (lookup port w.desired) (protocol_text r.protocol)
          (first_scheme port rs))

-- The port is among the conflicts of the loop.
abbrev pub in_conflict : ℤ → List ℤ → Bool
in_conflict port ports = any (int_eq port) ports

want-conflicts :
    (port : ℤ) (w : Wanted) (r : Route) (scheme : Text)
    → lookup port (want w r).desired ≡ some scheme
    → in_conflict port (want w r).conflicts ≡ (
        in_conflict port w.conflicts
        || (asks_for port r && not (protocol_text r.protocol == scheme)))
unfolding want
want-conflicts port w r scheme there = elim (Bool-cases (asks_port r)) [
  | inr asked ↦ ground arith
  | inl asked ↦ elim (Bool-cases (int_eq port r.public_port)) [
    | inr apart ↦ elim (Option-cases (lookup r.public_port w.desired)) [
      | inl e ↦ ground arith
      | inr (existing, e) ↦ ground arith
    ]
    | inl same ↦
        let eq = (int_eq_iff port r.public_port).0 same in
        let own : or_else (lookup r.public_port w.desired) (some (protocol_text r.protocol))
            ≡ some scheme =
          sym (want-own w r asked) ∙ ap (λ p. lookup p (want w r).desired) (sym eq) ∙ there in
        let agrees = text_eq_iff (protocol_text r.protocol) scheme in
        elim (Option-cases (lookup r.public_port w.desired)) [
          | inl e ↦
              let first : protocol_text r.protocol ≡ scheme = ground arith in
              ground (arith, agrees.1 first)
          | inr (existing, e) ↦
              let old : existing ≡ scheme = ground arith in
              let known = text_eq_iff existing (protocol_text r.protocol) in
              elim (Bool-cases (existing == protocol_text r.protocol)) [
                | inl h ↦ ground (arith, agrees.1 (sym (known.0 h) ∙ old))
                | inr h ↦
                    let differs : (protocol_text r.protocol == scheme) ≡ false =
                      elim (Bool-cases (protocol_text r.protocol == scheme)) [
                        | inr k ↦ k
                        | inl k ↦ absurd (ground (arith, known.1 (old ∙ sym (agrees.0 k))))
                      ] in
                    ground arith
              ]
        ]
  ]
]

want-conflicts-other :
    (port : ℤ) (w : Wanted) (r : Route)
    → asks_for port r ≡ false
    → in_conflict port (want w r).conflicts ≡ in_conflict port w.conflicts
unfolding want
want-conflicts-other port w r unasked = elim (Bool-cases (asks_port r)) [
  | inr asked ↦ rw asked refl
  | inl asked ↦ elim (Option-cases (lookup r.public_port w.desired)) [
    | inl e ↦ rw (asked, e) refl
    | inr (existing, e) ↦ ground arith
  ]
]

or_else-if-none :
    (b : Bool) (a : Option Text) (x : Text)
    → or_else a (if b then some x else none) ≡ none
    → b ≡ false
or_else-if-none b a x h = ground arith

want_all-conflicts :
    (port : ℤ) (w : Wanted) (routes : List Route) (scheme : Text)
    → or_else (lookup port w.desired) (first_scheme port routes) ≡ some scheme
    → in_conflict port (want_all w routes).conflicts
      ≡ (in_conflict port w.conflicts || disagrees port scheme routes)
unfolding want_all
want_all-conflicts port w [] scheme there = ground arith
want_all-conflicts port w (r ∷ rs) scheme there =
    let later : or_else (lookup port (want w r).desired) (first_scheme port rs) ≡ some scheme =
      ap (λ o. or_else o (first_scheme port rs)) (want-desired port w r)
      ∙ or_else-if (asks_for port r) (lookup port w.desired) (protocol_text r.protocol)
          (first_scheme port rs)
      ∙ there in
    want_all-conflicts port (want w r) rs scheme later
    ∙ elim (Option-cases (lookup port (want w r).desired)) [
      | inr (found, e) ↦
          let same : found ≡ scheme = ground arith in
          ground (arith, want-conflicts port w r scheme (e ∙ ap some same))
      | inl e ↦
          let unasked =
            or_else-if-none (asks_for port r) (lookup port w.desired) (protocol_text r.protocol)
              (sym (want-desired port w r) ∙ e) in
          ground (arith, want-conflicts-other port w r unasked)
    ]

drop_conflicts-lookup :
    (port : ℤ) (ports : List ℤ) (m : List (ℤ × Text))
    → lookup port (drop_conflicts ports m)
      ≡ (if in_conflict port ports then none else lookup port m)
unfolding drop_conflicts
drop_conflicts-lookup port [] m = refl
drop_conflicts-lookup port (p ∷ ports) m = elim (Bool-cases (int_eq port p)) [
  | inl same ↦
      let gone : lookup port (map_remove int_eq p m) ≡ none =
        subst (λ q. lookup port (map_remove int_eq q m) ≡ none) ((int_eq_iff port p).0 same)
          (map_get-map_remove int_eq port m) in
      ground (arith, drop_conflicts-lookup port ports (map_remove int_eq p m))
  | inr apart ↦ ground (
    arith,
    drop_conflicts-lookup port ports (map_remove int_eq p m),
    map_get-map_remove_other int_eq int_eq_iff port p m apart,
  )
]

-- The scheme that a port is wanted with: that of the routes that ask for it, if they agree.
abbrev pub wanted_scheme : ℤ → List Route → Option Text
wanted_scheme port routes = elim (first_scheme port routes) [
  | none ↦ none
  | some scheme ↦ if disagrees port scheme routes then none else some scheme
]

abbrev pub gathered : List Route → Wanted
gathered routes = want_all (record { desired = []; conflicts = [] }) routes

pub gathered-wanted_scheme :
    (port : ℤ) (routes : List Route)
    → lookup port (drop_conflicts (gathered routes).conflicts (gathered routes).desired)
      ≡ wanted_scheme port routes
gathered-wanted_scheme port routes =
    let nothing : Wanted = record { desired = []; conflicts = [] } in
    let desired = want_all-desired port nothing routes in
    let dropped =
      drop_conflicts-lookup port (gathered routes).conflicts (gathered routes).desired in
    elim (Option-cases (first_scheme port routes)) [
      | inl e ↦ ground arith
      | inr (scheme, e) ↦ ground (arith, want_all-conflicts port nothing routes scheme e)
    ]

pub gathered-in_conflict :
    (port : ℤ) (routes : List Route) (scheme : Text)
    → first_scheme port routes ≡ some scheme
    → in_conflict port (gathered routes).conflicts ≡ disagrees port scheme routes
gathered-in_conflict port routes scheme e =
    want_all-conflicts port (record { desired = []; conflicts = [] }) routes scheme e

want-IsMap :
    (w : Wanted) (r : Route)
    → IsMap int_eq int_eq_iff w.desired
    → IsMap int_eq int_eq_iff (want w r).desired
unfolding want
want-IsMap w r h =
    let put =
      map_put-IsMap int_eq int_eq_iff r.public_port (protocol_text r.protocol) w.desired h in
    elim (Bool-cases (asks_port r)) [
      | inr asked ↦ rw asked h
      | inl asked ↦ elim (Option-cases (lookup r.public_port w.desired)) [
        | inl e ↦ rw (asked, e) put
        | inr (existing, e) ↦ elim (Bool-cases (existing == protocol_text r.protocol)) [
          | inl k ↦ rw (asked, e, k) put
          | inr k ↦ rw (asked, e, k) h
        ]
      ]
    ]

want_all-IsMap :
    (w : Wanted) (routes : List Route)
    → IsMap int_eq int_eq_iff w.desired
    → IsMap int_eq int_eq_iff (want_all w routes).desired
unfolding want_all
want_all-IsMap w [] h = h
want_all-IsMap w (r ∷ rs) h = want_all-IsMap (want w r) rs (want-IsMap w r h)

drop_conflicts-IsMap :
    (ports : List ℤ) (m : List (ℤ × Text))
    → IsMap int_eq int_eq_iff m
    → IsMap int_eq int_eq_iff (drop_conflicts ports m)
unfolding drop_conflicts
drop_conflicts-IsMap [] m h = h
drop_conflicts-IsMap (p ∷ ports) m h =
    drop_conflicts-IsMap ports (map_remove int_eq p m) (map_remove-IsMap int_eq int_eq_iff p m h)

pub gathered-IsMap :
    (routes : List Route)
    → IsMap int_eq int_eq_iff (drop_conflicts (gathered routes).conflicts (gathered routes).desired)
gathered-IsMap routes =
    drop_conflicts-IsMap (gathered routes).conflicts (gathered routes).desired
      (want_all-IsMap (record { desired = []; conflicts = [] }) routes tt)

want_all-conflicts-none :
    (port : ℤ) (w : Wanted) (routes : List Route)
    → first_scheme port routes ≡ none
    → in_conflict port (want_all w routes).conflicts ≡ in_conflict port w.conflicts
unfolding want_all
want_all-conflicts-none port w [] none_asks = refl
want_all-conflicts-none port w (r ∷ rs) none_asks = elim (Bool-cases (asks_for port r)) [
  | inl e ↦ absurd (ground arith)
  | inr e ↦
      want_all-conflicts-none port (want w r) rs (ground arith) ∙ want-conflicts-other port w r e
]

pub gathered-in_conflict-none :
    (port : ℤ) (routes : List Route)
    → first_scheme port routes ≡ none
    → in_conflict port (gathered routes).conflicts ≡ false
gathered-in_conflict-none port routes none_asks =
    want_all-conflicts-none port (record { desired = []; conflicts = [] }) routes none_asks
