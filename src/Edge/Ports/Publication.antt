-- ===== src/Edge/Ports/Publication.antt =====
-- What a reconciliation makes of each port: its listener, and the status that is reported.
-- The port has a listener of this scheme.
use portloom.Domain.Route.{Route}
use portloom.Edge.Ports.{
  PortStatus, PortsManager, conflict_statuses, drop_conflicts, keeps_server, opens, port_bind_error,
  port_conflict, port_pending, port_published, port_status, reconcile_ports,
}
use portloom.Edge.Ports.Reconciled.{start_ports-Left}
use portloom.Edge.Ports.Schemes.{
  disagrees, first_scheme, gathered, gathered-IsMap, gathered-in_conflict,
  gathered-in_conflict-none, gathered-wanted_scheme, in_conflict, lookup, wanted_scheme,
}
use portloom.Maps.{map_get}
use portloom.Maps.Laws.{IsMap, map_get-keep, map_get-map_remove_other}
use portloom.Prelude.{
  Bool, Bool-cases, List, Option, Option-cases, Text, [], arith, false, if◌then◌else◌, inl, inr,
  int_eq, int_eq_iff, keep, none, refl, some, text_eq_iff, ℤ, ◌==◌, ◌||◌, ◌∙◌, ◌∷◌, ◌≡◌,
}

abbrev pub serves : ℤ → Text → List (ℤ × Text) → Bool
serves port scheme servers = elim (lookup port servers) [
  | none ↦ false
  | some current ↦ scheme == current
]

-- The status for the schemes that the routes ask for, if a listener of the first can be had.
abbrev pub status_of : ℤ → List Route → (Text → Bool) → PortStatus
status_of port routes available = elim (first_scheme port routes) [
  | none ↦ port_pending
  | some scheme ↦
      if disagrees port scheme routes
      then port_conflict
      else if available scheme
      then port_published
      else port_bind_error
]

-- The scheme that is served afterwards.
abbrev pub scheme_of : ℤ → List Route → (Text → Bool) → Option Text
scheme_of port routes available = elim (wanted_scheme port routes) [
  | none ↦ none
  | some scheme ↦ if available scheme then some scheme else none
]

conflict_statuses-lookup :
    (port : ℤ) (ports : List ℤ)
    → lookup port (conflict_statuses ports)
      ≡ (if in_conflict port ports then some port_conflict else none)
conflict_statuses-lookup port [] = refl
conflict_statuses-lookup port (p ∷ ports) = elim (Bool-cases (int_eq port p)) [
  | inl same ↦ rw same refl
  | inr apart ↦ rw apart (
      map_get-map_remove_other int_eq int_eq_iff port p (conflict_statuses ports) apart
      ∙ conflict_statuses-lookup port ports)
]

kept-lookup :
    (port : ℤ) (desired servers : List (ℤ × Text)) (wanted : Option Text)
    → IsMap int_eq int_eq_iff servers
    → lookup port desired ≡ wanted
    → lookup port (keep (keeps_server desired) servers) ≡ (elim wanted [
      | none ↦ none
      | some scheme ↦ if serves port scheme servers then some scheme else none
    ])
unfolding keeps_server
kept-lookup port desired servers wanted h e =
    map_get-keep int_eq int_eq_iff (keeps_server desired) port servers h
    ∙ elim (Option-cases (lookup port servers)) [
      | inl absent ↦ ground (arith, e)
      | inr (current, there) ↦ elim (Option-cases wanted) [
        | inl nobody ↦ ground (arith, e, there, nobody)
        | inr (scheme, asked) ↦ ground (arith, e, there, asked, text_eq_iff scheme current)
      ]
    ]

-- After a reconciliation that listed the routes, a port is served exactly with the scheme that all
-- routes asking for it agree on, provided that it was served so before or that a listener opens; and
-- its status tells a port that nobody asks for, one that is asked for with two schemes, one that is
-- served and one whose listener did not open.
pub reconcile_ports-status :
    (has_tls : Bool) (listens : ℤ → Bool) (routes : List Route) (m : PortsManager) (port : ℤ)
    → IsMap int_eq int_eq_iff m.servers
    → (map_get int_eq port (reconcile_ports has_tls listens (some routes) m).servers
        ≡ scheme_of port routes
            (λ scheme. serves port scheme m.servers || opens has_tls listens port scheme))
      × (port_status (reconcile_ports has_tls listens (some routes) m) port
          ≡ status_of port routes
              (λ scheme. serves port scheme m.servers || opens has_tls listens port scheme))
unfolding reconcile_ports port_status
reconcile_ports-status has_tls listens routes m port h =
    let desired = drop_conflicts (gathered routes).conflicts (gathered routes).desired in
    let begun : PortsManager = record {
      servers = keep (keeps_server desired) m.servers;
      port_statuses = conflict_statuses (gathered routes).conflicts;
    } in
    let loop = start_ports-Left has_tls listens desired begun port (gathered-IsMap routes) in
    let wanted = gathered-wanted_scheme port routes in
    let kept = kept-lookup port desired m.servers (wanted_scheme port routes) h wanted in
    let conflicts = conflict_statuses-lookup port (gathered routes).conflicts in
    elim (Option-cases (first_scheme port routes)) [
      | inl e ↦
          let quiet = gathered-in_conflict-none port routes e in
          ground (arith, e, kept, wanted, loop.servers, loop.statuses, conflicts, quiet)
      | inr (scheme, e) ↦
          let clash = gathered-in_conflict port routes scheme e in
          elim (Bool-cases (disagrees port scheme routes)) [
            | inl d ↦ ground (arith, e, kept, wanted, loop.servers, loop.statuses, conflicts, clash)
            | inr d ↦ elim (Bool-cases (serves port scheme m.servers)) [
              | inl k ↦
                  ground (arith, e, kept, wanted, loop.servers, loop.statuses, conflicts, clash)
              | inr k ↦
                  ground (arith, e, kept, wanted, loop.servers, loop.statuses, conflicts, clash)
            ]
          ]
    ]
