-- ===== src/Edge/Ports/Reconciled.antt =====
-- What the loop over the wanted ports leaves at each port.
-- The server that a port has after a round, for the one it had, the scheme that is wanted and
-- whether it opens.
use portloom.Edge.Ports.{
  PortStatus, PortsManager, opens, port_bind_error, port_published, start_port, start_ports,
  started,
}
use portloom.Edge.Ports.Schemes.{lookup, put-other}
use portloom.Maps.{map_put}
use portloom.Maps.Laws.{IsMap, map_get-map_put}
use portloom.Prelude.{
  Bool, Bool-cases, List, Option, Text, [], ap, false, if◌then◌else◌, inl, inr, int_eq, int_eq_iff,
  none, refl, some, subst, sym, true, ℤ, ◌∙◌, ◌∷◌, ◌≡◌,
}

abbrev pub served : Option Text → Option Text → (Text → Bool) → Option Text
served (some current) wanted opened = some current
served none none opened = none
served none (some scheme) opened = if opened scheme then some scheme else none

-- The status that is reported for it, for the one before.
abbrev pub reported :
    Option Text → Option Text → (Text → Bool) → Option PortStatus → Option PortStatus
reported current none opened before = before
reported (some current) (some scheme) opened before = some port_published
reported none (some scheme) opened before =
    if opened scheme then some port_published else some port_bind_error

put-at :
    (port : ℤ) (s : PortStatus) (m : List (ℤ × PortStatus))
    → lookup port (map_put int_eq port s m) ≡ some s
put-at port s m = map_get-map_put int_eq port s m ((int_eq_iff port port).1 refl)

served-at :
    (current : Option Text) (scheme : Text) (opened : Text → Bool)
    → served current (some scheme) (λ s. opened scheme) ≡ served current (some scheme) opened
served-at none scheme opened = refl
served-at (some current) scheme opened = refl

reported-at :
    (current : Option Text) (scheme : Text) (opened : Text → Bool) (before : Option PortStatus)
    → reported current (some scheme) (λ s. opened scheme) before
      ≡ reported current (some scheme) opened before
reported-at none scheme opened before = refl
reported-at (some current) scheme opened before = refl

served-none : (current : Option Text) (opened : Text → Bool) → served current none opened ≡ current
served-none none opened = refl
served-none (some current) opened = refl

module _ (has_tls : Bool) (listens : ℤ → Bool) where
  started-own :
      (key : ℤ) (scheme : Text) (m : PortsManager) (current : Option Text) (opened : Bool)
      → lookup key m.servers ≡ current
      → (lookup key (started has_tls listens key scheme m current opened).servers
          ≡ served current (some scheme) (λ s. opened))
        × (lookup key (started has_tls listens key scheme m current opened).port_statuses
            ≡ reported current (some scheme) (λ s. opened) (lookup key m.port_statuses))
  unfolding started
  started-own key scheme m (some current) opened e = (e, put-at key port_published m.port_statuses)
  started-own key scheme m none true e =
      (rw ((int_eq_iff key key).1 refl) refl, put-at key port_published m.port_statuses)
  started-own key scheme m none false e = (e, put-at key port_bind_error m.port_statuses)

  started-other :
      (port key : ℤ) (scheme : Text) (m : PortsManager) (current : Option Text) (opened : Bool)
      → int_eq port key ≡ false
      → (lookup port (started has_tls listens key scheme m current opened).servers
          ≡ lookup port m.servers)
        × (lookup port (started has_tls listens key scheme m current opened).port_statuses
            ≡ lookup port m.port_statuses)
  unfolding started
  started-other port key scheme m (some current) opened apart =
      (refl, put-other port key port_published m.port_statuses apart)
  started-other port key scheme m none true apart =
      (rw apart refl, put-other port key port_published m.port_statuses apart)
  started-other port key scheme m none false apart =
      (refl, put-other port key port_bind_error m.port_statuses apart)

  -- What the loop leaves at a port.
  pub record Left (port : ℤ) (ds : List (ℤ × Text)) (m m' : PortsManager) : Type 0 where
    pub servers :
        lookup port m'.servers
        ≡ served (lookup port m.servers) (lookup port ds) (opens has_tls listens port)
    pub statuses :
        lookup port m'.port_statuses
        ≡ reported
            (lookup port m.servers)
            (lookup port ds)
            (opens has_tls listens port)
            (lookup port m.port_statuses)

  pub start_ports-Left :
      (ds : List (ℤ × Text)) (m : PortsManager) (port : ℤ)
      → IsMap int_eq int_eq_iff ds
      → Left port ds m (start_ports has_tls listens ds m)
  unfolding start_ports start_port
  start_ports-Left [] m port h = record {
    servers = sym (served-none (lookup port m.servers) (opens has_tls listens port));
    statuses = refl;
  }
  start_ports-Left ((key, scheme) ∷ ds) m port (fresh, h) =
      let next = start_port has_tls listens key scheme m in
      let later = start_ports-Left ds next port h in
      elim (Bool-cases (int_eq port key)) [
        | inr apart ↦
            let (here, there) =
              started-other port key scheme m (lookup key m.servers)
                (opens has_tls listens key scheme) apart in
            record {
              servers = later.servers ∙ rw (here, apart) refl;
              statuses = later.statuses ∙ rw (here, there, apart) refl;
            }
        | inl same ↦
            let (here, there) =
              started-own key scheme m (lookup key m.servers) (opens has_tls listens key scheme)
                refl in
            let eq = (int_eq_iff port key).0 same in
            let own = (int_eq_iff key key).1 refl in
            let at_key = start_ports-Left ds next key h in
            subst
              (λ p.
                Left p ((key, scheme) ∷ ds) m (start_ports has_tls listens ((key, scheme) ∷ ds) m))
              (sym eq)
              (record {
                servers =
                    at_key.servers
                    ∙ ap (λ w. served (lookup key next.servers) w (opens has_tls listens key)) fresh
                    ∙ served-none (lookup key next.servers) (opens has_tls listens key)
                    ∙ here
                    ∙ rw own (served-at (lookup key m.servers) scheme (opens has_tls listens key));
                statuses =
                    at_key.statuses
                    ∙ ap
                        (λ w.
                          reported (lookup key next.servers) w (opens has_tls listens key)
                            (lookup key next.port_statuses))
                        fresh
                    ∙ there
                    ∙ rw own (
                        reported-at (lookup key m.servers) scheme (opens has_tls listens key)
                          (lookup key m.port_statuses));
              })
      ]
