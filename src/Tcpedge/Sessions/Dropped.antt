-- ===== src/Tcpedge/Sessions/Dropped.antt =====
-- Which sessions are left after idle ones expired, or after the listener stopped.
use portloom.Domain.Agent.{Time}
use portloom.Maps.{map_get, map_remove}
use portloom.Maps.Laws.{IsMap, map_remove-absent}
use portloom.Prelude.{
  All, All-imp, Bool, Bool-cases, List, Option, Option-cases, Text, [], any, ap, arith, false,
  if◌then◌else◌, inl, inr, keep, ltb, nat_eq, nat_eq_iff, none, not, refl, some, subst, sym,
  text_eq_iff, true, ℕ, ◌&&◌, ◌==◌, ◌∙◌, ◌∷◌, ◌≡◌,
}
use portloom.Tcpedge.Sessions.{
  Session, UdpWorker, begin_stop, drop_found, drop_session, drop_sessions, expire, is_idle,
  is_session,
}

abbrev removed : Text → ℕ → List (Text × Session) → Option Session → List (Text × Session)
removed client backend l none = l
removed client backend l (some s) = if nat_eq backend s.backend then map_remove ◌==◌ client l else l

abbrev Fresh : List (Text × Session) → Type 0
Fresh l = IsMap ◌==◌ text_eq_iff l

drop_found-sessions :
    (client : Text) (backend : ℕ) (found : Option Session) (w : UdpWorker)
    → (drop_found client backend found w).sessions ≡ removed client backend w.sessions found
unfolding drop_found
drop_found-sessions client backend none w = refl
drop_found-sessions client backend (some s) w = elim (Bool-cases (nat_eq backend s.backend)) [
  | inl e ↦ rw e refl
  | inr e ↦ rw e refl
]

keep-absent :
    (client : Text) (backend : ℕ) (l : List (Text × Session))
    → map_get ◌==◌ client l ≡ none
    → keep (λ e. not (is_session client backend e)) l ≡ l
keep-absent client backend [] h = refl
keep-absent client backend (e ∷ l) h = elim (Bool-cases (client == e.0)) [
  | inl d ↦ absurd (ground arith)
  | inr d ↦ rw d (ap (e ∷◌) (keep-absent client backend l (ground arith)))
]

removed-keep :
    (client : Text) (backend : ℕ) (l : List (Text × Session))
    → Fresh l
    → removed client backend l (map_get ◌==◌ client l)
      ≡ keep (λ e. not (is_session client backend e)) l
removed-keep client backend [] h = refl
removed-keep client backend (e ∷ l) (fresh, h) = elim (Bool-cases (client == e.0)) [
  | inl d ↦
      let absent : map_get ◌==◌ client l ≡ none =
        subst (λ k. map_get ◌==◌ k l ≡ none) (sym ((text_eq_iff client e.0).0 d)) fresh in
      let kept = keep-absent client backend l absent in
      let gone = map_remove-absent ◌==◌ text_eq_iff client l absent in
      elim (Bool-cases (nat_eq backend e.1.backend)) [
        | inl k ↦ ground (arith, kept, gone)
        | inr k ↦ ground (arith, kept, gone)
      ]
  | inr d ↦
      let rest = removed-keep client backend l h in
      elim (Option-cases (map_get ◌==◌ client l)) [
        | inl absent ↦ ground arith
        | inr (s, there) ↦ elim (Bool-cases (nat_eq backend s.backend)) [
          | inl k ↦ ground arith
          | inr k ↦ ground arith
        ]
      ]
]

abbrev is_dropped : List (Text × Session) → Text × Session → Bool
is_dropped ds e = any (λ d. is_session d.0 d.1.backend e) ds

keep-keep :
    (p q : Text × Session → Bool) (l : List (Text × Session))
    → keep q (keep p l) ≡ keep (λ e. p e && q e) l
keep-keep p q [] = refl
keep-keep p q (e ∷ l) = elim (Bool-cases (p e)) [
  | inl d ↦ ground (arith, keep-keep p q l)
  | inr d ↦ ground (arith, keep-keep p q l)
]

keep-same :
    (p q : Text × Session → Bool) (l : List (Text × Session))
    → All (λ e. p e ≡ q e) l
    → keep p l ≡ keep q l
keep-same p q [] h = refl
keep-same p q (e ∷ l) (k, h) = ground (arith, keep-same p q l h)

map_get-keep-none :
    (p : Text × Session → Bool) (client : Text) (l : List (Text × Session))
    → map_get ◌==◌ client l ≡ none
    → map_get ◌==◌ client (keep p l) ≡ none
map_get-keep-none p client [] h = refl
map_get-keep-none p client (e ∷ l) h = elim (Bool-cases (p e)) [
  | inl d ↦ ground (arith, map_get-keep-none p client l)
  | inr d ↦ ground (arith, map_get-keep-none p client l)
]

keep-Fresh : (p : Text × Session → Bool) (l : List (Text × Session)) → Fresh l → Fresh (keep p l)
keep-Fresh p [] h = tt
keep-Fresh p (e ∷ l) (fresh, h) = elim (Bool-cases (p e)) [
  | inl d ↦ rw d (map_get-keep-none p e.0 l fresh, keep-Fresh p l h)
  | inr d ↦ rw d (keep-Fresh p l h)
]

keep-true : (l : List (Text × Session)) → keep (λ e. true) l ≡ l
keep-true [] = refl
keep-true (e ∷ l) = ap (e ∷◌) (keep-true l)

keep-false : (l : List (Text × Session)) → keep (λ e. false) l ≡ []
keep-false [] = refl
keep-false (e ∷ l) = keep-false l

drop_sessions-stopped :
    (ds : List (Text × Session)) (w : UdpWorker) → (drop_sessions ds w).stopped ≡ w.stopped
unfolding drop_sessions drop_session drop_found
drop_sessions-stopped [] w = refl
drop_sessions-stopped (d ∷ ds) w =
    drop_sessions-stopped ds (drop_session d.0 d.1.backend w) ∙ once (map_get ◌==◌ d.0 w.sessions)
  where
    once : (found : Option Session) → (drop_found d.0 d.1.backend found w).stopped ≡ w.stopped
    once none = refl
    once (some s) = ground arith

drop_sessions-sessions :
    (ds : List (Text × Session)) (w : UdpWorker)
    → Fresh w.sessions
    → (drop_sessions ds w).sessions ≡ keep (λ e. not (is_dropped ds e)) w.sessions
unfolding drop_sessions drop_session
drop_sessions-sessions [] w h = sym (keep-true w.sessions)
drop_sessions-sessions (d ∷ ds) w h =
    let p : Text × Session → Bool = λ e. not (is_session d.0 d.1.backend e) in
    let next = drop_session d.0 d.1.backend w in
    let once : next.sessions ≡ keep p w.sessions =
      drop_found-sessions d.0 d.1.backend (map_get ◌==◌ d.0 w.sessions) w
      ∙ removed-keep d.0 d.1.backend w.sessions h in
    let fresh : Fresh next.sessions = subst Fresh (sym once) (keep-Fresh p w.sessions h) in
    drop_sessions-sessions ds next fresh
    ∙ ap (keep (λ e. not (is_dropped ds e))) once
    ∙ keep-keep p (λ e. not (is_dropped ds e)) w.sessions
    ∙ keep-same _ _ w.sessions (all_same w.sessions)
  where
    all_same :
        (l : List (Text × Session))
        → All
            (λ e.
              (not (is_session d.0 d.1.backend e) && not (is_dropped ds e))
              ≡ not (is_dropped (d ∷ ds) e))
            l
    all_same [] = tt
    all_same (e ∷ l) = (ground arith, all_same l)

-- Of two sessions with different clients, none is the other.
apart :
    (e : Text × Session) (l : List (Text × Session))
    → map_get ◌==◌ e.0 l ≡ none
    → All (λ x. (e.0 == x.0) ≡ false) l
apart e [] h = tt
apart e (x ∷ l) h = elim (Bool-cases (e.0 == x.0)) [
  | inl d ↦ absurd (ground arith)
  | inr d ↦ (d, apart e l (ground arith))
]

is_dropped-absent :
    (p : Text × Session → Bool) (e : Text × Session) (l : List (Text × Session))
    → All (λ x. (e.0 == x.0) ≡ false) l
    → is_dropped (keep p l) e ≡ false
is_dropped-absent p e [] h = refl
is_dropped-absent p e (x ∷ l) (k, h) =
    let other : (x.0 == e.0) ≡ false =
      ground (arith, k, text_eq_iff e.0 x.0, text_eq_iff x.0 e.0) in
    elim (Bool-cases (p x)) [
      | inl d ↦ ground (arith, is_dropped-absent p e l h)
      | inr d ↦ ground (arith, is_dropped-absent p e l h)
    ]

is_dropped-more :
    (p : Text × Session → Bool) (e : Text × Session) (ds l : List (Text × Session))
    → All (λ x. (e.0 == x.0) ≡ false) l
    → All (λ x. is_dropped ds x ≡ p x) l
    → All (λ x. is_dropped (e ∷ ds) x ≡ p x) l
is_dropped-more p e ds [] far h = tt
is_dropped-more p e ds (x ∷ l) (k, far) (same, h) = (ground arith, is_dropped-more p e ds l far h)

is_dropped-own :
    (p : Text × Session → Bool) (l : List (Text × Session))
    → Fresh l
    → All (λ e. is_dropped (keep p l) e ≡ p e) l
is_dropped-own p [] h = tt
is_dropped-own p (e ∷ l) (fresh, h) =
    let far = apart e l fresh in
    let own = is_dropped-own p l h in
    elim (Bool-cases (p e)) [
      | inl d ↦
          let kept : keep p (e ∷ l) ≡ e ∷ keep p l = rw d refl in
          subst (λ ds. (is_dropped ds e ≡ p e) × All (λ x. is_dropped ds x ≡ p x) l) (sym kept)
            (
              ground (
                arith,
                (text_eq_iff e.0 e.0).1 refl,
                (nat_eq_iff e.1.backend e.1.backend).1 refl,
              ),
              is_dropped-more p e (keep p l) l far own,
            )
      | inr d ↦
          let kept : keep p (e ∷ l) ≡ keep p l = rw d refl in
          subst (λ ds. (is_dropped ds e ≡ p e) × All (λ x. is_dropped ds x ≡ p x) l) (sym kept)
            (is_dropped-absent p e l far ∙ sym d, own)
    ]

-- Dropping all that pass a test leaves those that do not.
drop-keep :
    (p : Text × Session → Bool) (w : UdpWorker)
    → Fresh w.sessions
    → (drop_sessions (keep p w.sessions) w).sessions ≡ keep (λ e. not (p e)) w.sessions
drop-keep p w h =
    drop_sessions-sessions (keep p w.sessions) w h
    ∙ keep-same _ _ w.sessions
        (All-imp w.sessions (λ e same. ap not same) (is_dropped-own p w.sessions h))

-- A round of expiry drops exactly the sessions that saw no datagram since the cutoff, and beginStop
-- drops every session of a listener that runs and marks it as stopped, if no client has two sessions.
pub expire-sessions :
    (cutoff : Time) (w : UdpWorker)
    → IsMap ◌==◌ text_eq_iff w.sessions
    → ((expire cutoff w).sessions ≡ keep (λ e. not (ltb e.1.last_seen cutoff)) w.sessions)
      × (w.stopped ≡ false → ((begin_stop w).sessions ≡ []) × ((begin_stop w).stopped ≡ true))
unfolding expire begin_stop
expire-sessions cutoff w h = (
  drop-keep (is_idle cutoff) w h,
  λ running.
      let marked : UdpWorker = record w { stopped = true } in
      let cleared : (drop_sessions w.sessions marked).sessions ≡ [] =
        subst (λ ds. (drop_sessions ds marked).sessions ≡ []) (keep-true w.sessions)
          (drop-keep (λ e. true) marked h ∙ keep-false w.sessions) in
      rw running (cleared, drop_sessions-stopped w.sessions marked),
)
