-- ===== src/Tcpedge.antt =====
-- internal/tcpedge/manager.go: the public listeners of TCP and UDP routes. Whether the operating
-- system lets a listener open, and whether a worker's loop still runs, are arguments; the slots of
-- connections are counts of what the buffered channels hold.
pub mod Workers
pub mod Limits
pub mod Status
pub mod Sessions
use portloom.Domain.Agent.{Time}
use portloom.Domain.Route.{Protocol, Route, is_stream, protocol_eq, publication_ready_at}
use portloom.Managedssh.{bind_address, legacy_bind_address}
use portloom.Maps.{map_get, map_put}
use portloom.Net.{join_host_port}
use portloom.Prelude.{
  Bool, List, Option, Text, [], false, find, if◌then◌else◌, int_eq, keep, length, ltb, ltb_ℤ,
  nat_eq, none, not, pos, some, true, ℕ, ℤ, ◌&&◌, ◌+◌, ◌-◌, ◌==◌, ◌∷◌,
}
use portloom.Strings.{itoa}

pub data PublicationStatus : Type 0 where
  disabled invalid waiting_agent pending conflict bind_error published : PublicationStatus

pub record Worker : Type 0 where
  pub worker_route : Route
  pub backend : Text

pub record Publication : Type 0 where
  pub status : PublicationStatus
  pub worker : Option Worker

pub record Manager : Type 0 where
  pub isolated_agent_bindings : Bool
  pub workers : List ((Protocol × ℤ) × Worker)
  pub statuses : List (Text × Publication)

abbrev pub same_key : Protocol × ℤ → Protocol × ℤ → Bool
unfolding protocol_eq
same_key a b = protocol_eq a.0 b.0 && int_eq a.1 b.1

abbrev pub port_key : Route → Protocol × ℤ
port_key r = (r.protocol, r.public_port)

unfoldable pub same_target : Route → Route → Bool
unfolding ◌==◌ protocol_eq
same_target current desired =
    current.id == desired.id
    && current.client_id == desired.client_id
    && protocol_eq current.protocol desired.protocol
    && int_eq current.remote_port desired.remote_port
    && int_eq current.public_port desired.public_port

unfoldable pub backend_address : (Text → List ℕ) → Bool → Route → Option Text
unfolding bind_address join_host_port itoa
backend_address sha256 isolated r =
    elim (if isolated then bind_address sha256 r.client_id else some legacy_bind_address) [
      | none ↦ none
      | some host ↦ some (join_host_port host (itoa r.remote_port))
    ]

-- The `switch` of reconcile: none for a route that is to be published.
unfoldable pub withheld : Time → Route → Option PublicationStatus
unfolding publication_ready_at
withheld now r =
    if not r.enabled
    then some disabled
    else if ltb_ℤ r.public_port (pos 1)
    then some invalid
    else if not (publication_ready_at r now)
    then some waiting_agent
    else none

abbrev pub is_none : Option PublicationStatus → Bool
is_none none = true
is_none (some s) = false

abbrev pub is_candidate : Time → Route → Bool
unfolding withheld
is_candidate now r = is_stream r.protocol && is_none (withheld now r)

-- The candidate is the only one for its port.
abbrev pub is_alone : List Route → Route → Bool
is_alone candidates r =
    nat_eq (length (keep (λ q. same_key (port_key q) (port_key r)) candidates)) 1

-- The routes of `desired`.
unfoldable pub desired_routes : Time → List Route → List Route
unfolding is_candidate same_key
desired_routes now routes =
    let candidates = keep (is_candidate now) routes in keep (is_alone candidates) candidates

-- The identifiers of routes differ, so the order of the writes does not matter.
unfoldable pub first_statuses : Time → List Route → List (Text × Publication)
unfolding ◌==◌ withheld same_key
first_statuses now routes = go routes
  where
    status_of : Route → PublicationStatus
    status_of r = elim (withheld now r) [
      | some s ↦ s
      | none ↦ if is_alone (keep (is_candidate now) routes) r then pending else conflict
    ]

    go : List Route → List (Text × Publication)
    go [] = []
    go (r ∷ rs) =
        let rest = go rs in
        if is_stream r.protocol
        then map_put ◌==◌ r.id (record { status = status_of r; worker = none }) rest
        else rest

module _ (sha256 : Text → List ℕ) (listens : Protocol × ℤ → Bool) (running : Worker → Bool) where
  unfoldable pub start : Bool → Route → Option Worker
  unfolding backend_address
  start isolated r = elim (backend_address sha256 isolated r) [
    | none ↦ none
    | some backend ↦
        if listens (port_key r) then some (record { worker_route = r; backend = backend }) else none
  ]

  -- A worker goes on where it serves the desired route of its port and its loop still runs.
  unfoldable pub goes_on : List Route → (Protocol × ℤ) × Worker → Bool
  unfolding same_key same_target
  goes_on desired e = elim (find (λ r. same_key (port_key r) e.0) desired) [
    | none ↦ false
    | some r ↦ same_target e.1.worker_route r && running e.1
  ]

  -- The loop over the desired routes.
  unfoldable pub start_missing : List Route → Manager → Manager
  unfolding ◌==◌ same_key start
  start_missing [] m = m
  start_missing (r ∷ rs) m =
      let report : PublicationStatus → Option Worker → List (Text × Publication) =
        λ s w. map_put ◌==◌ r.id (record { status = s; worker = w }) m.statuses in
      let next : Manager = elim (map_get same_key (port_key r) m.workers) [
        | some w ↦ record m { statuses = report published (some w) }
        | none ↦ elim (start m.isolated_agent_bindings r) [
          | none ↦ record m { statuses = report bind_error none }
          | some w ↦ record m {
            workers = (port_key r, w) ∷ m.workers;
            statuses = report published (some w);
          }
        ]
      ] in
      start_missing rs next

  -- reconcile: the routes that the store listed, `none` where it failed.
  unfoldable pub reconcile : Time → Option (List Route) → Manager → Manager
  unfolding desired_routes first_statuses goes_on start_missing
  reconcile now none m = record m { workers = []; statuses = [] }
  reconcile now (some routes) m =
      let desired = desired_routes now routes in
      start_missing desired (record m {
        workers = keep (goes_on desired) m.workers;
        statuses = first_statuses now routes;
      })

  abbrev pub is_running : Option Worker → Bool
  is_running none = false
  is_running (some w) = running w

  abbrev pub is_published : PublicationStatus → Bool
  is_published published = true
  is_published _ = false

  -- PublicStatus: none for a route that is no stream.
  unfoldable pub public_status : Time → Manager → Route → Option PublicationStatus
  unfolding ◌==◌ withheld
  public_status now m r =
      let observed : PublicationStatus = elim (map_get ◌==◌ r.id m.statuses) [
        | none ↦ pending
        | some p ↦ if is_published p.status && not (is_running p.worker) then pending else p.status
      ] in
      if not (is_stream r.protocol)
      then none
      else elim (withheld now r) [ some s ↦ some s | none ↦ some observed ]

  unfoldable pub authorize_accepted_route : Time → Option Route → Route → Bool
  unfolding protocol_eq publication_ready_at same_target
  authorize_accepted_route now none expected = false
  authorize_accepted_route now (some current) expected =
      protocol_eq current.protocol expected.protocol
      && publication_ready_at current now
      && same_target expected current

-- The buffered channels: how many slots are taken, and how many there are.
pub record Slots : Type 0 where
  pub global_taken : ℕ
  pub global_limit : ℕ
  pub route_taken : ℕ
  pub route_limit : ℕ

-- A send on a channel of slots, as a select with a default does it, and a receive.
unfoldable pub take_global : Slots → Bool × Slots
take_global s =
    if ltb s.global_taken s.global_limit
    then (true, record s { global_taken = s.global_taken + 1 })
    else (false, s)

unfoldable pub take_route : Slots → Bool × Slots
take_route s =
    if ltb s.route_taken s.route_limit
    then (true, record s { route_taken = s.route_taken + 1 })
    else (false, s)

unfoldable pub give_global : Slots → Slots
give_global s = record s { global_taken = s.global_taken - 1 }

unfoldable pub give_route : Slots → Slots
give_route s = record s { route_taken = s.route_taken - 1 }

-- The second select of acquireSlot, which gives the global slot back where it has no other.
abbrev pub with_route : Bool × Slots → Bool × Slots
with_route (true, s) = (true, s)
with_route (false, s) = (false, give_global s)

abbrev pub with_global : Bool × Slots → Bool × Slots
with_global (true, s) = with_route (take_route s)
with_global (false, s) = (false, s)

unfoldable pub acquire_slot : Slots → Bool × Slots
unfolding take_global take_route give_global
acquire_slot s = with_global (take_global s)

unfoldable pub release_slot : Slots → Slots
unfolding give_global give_route
release_slot s = give_global (give_route s)
