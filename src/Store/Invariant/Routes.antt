-- ===== src/Store/Invariant/Routes.antt =====
-- The checks before a route is written make it compatible with the other rows.
pub mod Created
pub mod Create
pub mod Updated
pub mod Update
use portloom.Domain.Route.{
  Protocol, Route, is_stream, is_web, known_protocol, protocol_eq, protocol_eq_iff,
}
use portloom.Domain.Route.Laws.{IsValid}
use portloom.Prelude.{
  Bool-cases, Text, ap, arith, false, if◌then◌else◌, inl, inr, int_eq, int_eq_iff, ltb_ℤ, not, pos,
  subst, sym, text_eq_iff, true, ℤ, ◌&&◌, ◌==◌, ◌||◌, ◌∙◌, ◌≡◌, ◌≢◌, ◌≤ℤ◌,
}
use portloom.Store.Db.{same_endpoint}
use portloom.Store.Invariant.{SameWeb}
use portloom.Store.Routes.{takes_port}

-- The endpoint of a valid route: a known protocol and a port that is not negative.
IsValid-known : (r : Route) → IsValid r → known_protocol r.protocol ≡ true
IsValid-known r v = elim v.endpoint [ inl w ↦ rw w.web | inr s ↦ ground (arith, s.stream) ]

pub IsValid-nonneg : (r : Route) → IsValid r → pos 0 ≤ℤ r.public_port
IsValid-nonneg r v = elim v.endpoint [
  | inl w ↦ elim w.port [ inl z ↦ rw z (omega arith) | inr p ↦ omega (arith, p.0) ]
  | inr s ↦ omega (arith, s.port.0)
]

share_scheme :
    (p q : Protocol)
    → known_protocol p ≡ true
    → known_protocol q ≡ true
    → (is_stream q && is_stream p) ≡ false
    → (if is_stream p then is_web q else is_stream q || (is_web q && not (protocol_eq q p))) ≡ false
    → (is_web p ≡ true) × (p ≡ q)
share_scheme p q hp hq s t = elim (Bool-cases (protocol_eq q p)) [
  | inl e ↦
      let same = (protocol_eq_iff q p).0 e in
      (web p hp (subst (λ x. (is_stream x && is_stream p) ≡ false) same s), sym same)
  | inr e ↦ absurd (other_scheme p q hp hq s e t)
]
  where
    web :
        (x : Protocol)
        → known_protocol x ≡ true
        → (is_stream x && is_stream x) ≡ false
        → is_web x ≡ true
    web x h k = ground arith

    other_scheme :
        (x y : Protocol)
        → known_protocol x ≡ true
        → known_protocol y ≡ true
        → (is_stream y && is_stream x) ≡ false
        → protocol_eq y x ≡ false
        → (if is_stream x then is_web y else is_stream y || (is_web y && not (protocol_eq y x)))
          ≡ false
        → ⊥
    other_scheme x y hx hy k e t = ground arith

positive : (x : ℤ) → pos 0 ≤ℤ x → x ≢ pos 0 → ltb_ℤ (pos 0) x ≡ true
positive x h ne = elim (Bool-cases (int_eq x (pos 0))) [
  | inl e ↦ absurd (ne ((int_eq_iff x (pos 0)).0 e))
  | inr e ↦ ground arith
]

module _ (r q : Route) (vr : IsValid r) (vq : IsValid q) where
  -- Where the unique indexes see no clash, two routes are no web routes of one endpoint.
  pub not-SameWeb : same_endpoint q r ≡ false → ¬ (SameWeb r q)
  not-SameWeb clear s = ground (
    arith,
    (protocol_eq_iff q.protocol r.protocol).1 (sym s.protocol),
    (text_eq_iff q.domain r.domain).1 (sym s.domain),
    (int_eq_iff q.public_port r.public_port).1 (sym s.public_port),
    (text_eq_iff q.path_prefix r.path_prefix).1 (sym s.path_prefix),
    s.web,
    ap is_web s.protocol,
  )

  -- Where the query of ensurePublicPortAvailable does not see the row either, a shared port is
  -- shared by web routes of one scheme.
  pub share_port :
      (exclude : Text)
      → same_endpoint q r ≡ false
      → (q.id == exclude) ≡ false
      → takes_port r exclude q ≡ false
      → r.public_port ≢ pos 0
      → r.public_port ≡ q.public_port
      → (is_web r.protocol ≡ true) × (r.protocol ≡ q.protocol)
  unfolding takes_port
  share_port exclude clear differs free nonzero same =
      share_scheme r.protocol q.protocol (IsValid-known r vr) (IsValid-known q vq)
        (ground
          (arith, equal, positive q.public_port (IsValid-nonneg q vq) (λ e. nonzero (same ∙ e))))
        (ground (arith, equal))
    where
      equal : int_eq q.public_port r.public_port ≡ true
      equal = (int_eq_iff q.public_port r.public_port).1 (sym same)
