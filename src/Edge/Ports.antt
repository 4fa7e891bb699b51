-- ===== src/Edge/Ports.antt =====
-- internal/edge/ports.go: the listeners on other ports than the default ones. Whether the operating
-- system opens a listener and whether there is a TLS configuration are arguments; a server is its
-- scheme.
pub mod Schemes
pub mod Reconciled
pub mod Publication
use portloom.Domain.Route.{Route, is_web, protocol_text}
use portloom.Maps.{map_get, map_put, map_remove}
use portloom.Prelude.{
  Bool, List, Option, Text, [], codes, false, if◌then◌else◌, int_eq, keep, none, not, pos, some,
  true, ℤ, ◌&&◌, ◌==◌, ◌∷◌,
}

pub data PortStatus : Type 0 where
  port_published port_bind_error port_conflict port_pending : PortStatus

pub record PortsManager : Type 0 where
  pub servers : List (ℤ × Text)
  pub port_statuses : List (ℤ × PortStatus)

-- PortStatus
unfoldable pub port_status : PortsManager → ℤ → PortStatus
port_status m port = elim (map_get int_eq port m.port_statuses) [
  | none ↦ port_pending
  | some status ↦ status
]

abbrev pub asks_port : Route → Bool
asks_port r = is_web r.protocol && not (int_eq r.public_port (pos 0)) && r.enabled

-- What the loop over the routes gathers.
pub record Wanted : Type 0 where
  pub desired : List (ℤ × Text)
  pub conflicts : List ℤ

unfoldable pub want : Wanted → Route → Wanted
unfolding protocol_text ◌==◌
want w r =
    let scheme = protocol_text r.protocol in
    let added : Wanted = record w { desired = map_put int_eq r.public_port scheme w.desired } in
    if not (asks_port r) then w else elim (map_get int_eq r.public_port w.desired) [
      | none ↦ added
      | some existing ↦
          if existing == scheme then added else record w { conflicts = r.public_port ∷ w.conflicts }
    ]

unfoldable pub want_all : Wanted → List Route → Wanted
unfolding want
want_all w [] = w
want_all w (r ∷ rs) = want_all (want w r) rs

-- The loop over the conflicts.
unfoldable pub drop_conflicts : List ℤ → List (ℤ × Text) → List (ℤ × Text)
drop_conflicts [] desired = desired
drop_conflicts (port ∷ ports) desired = drop_conflicts ports (map_remove int_eq port desired)

abbrev pub conflict_statuses : List ℤ → List (ℤ × PortStatus)
conflict_statuses [] = []
conflict_statuses (port ∷ ports) = map_put int_eq port port_conflict (conflict_statuses ports)

-- A server is kept where its port is wanted with its scheme.
unfoldable pub keeps_server : List (ℤ × Text) → ℤ × Text → Bool
unfolding ◌==◌
keeps_server desired server = elim (map_get int_eq server.0 desired) [
  | none ↦ false
  | some scheme ↦ scheme == server.1
]

module _ (has_tls : Bool) (listens : ℤ → Bool) where
  -- start: whether it gives a server.
  unfoldable pub opens : ℤ → Text → Bool
  unfolding ◌==◌
  opens port scheme = not (scheme == codes "https" && not has_tls) && listens port

  -- One round of the loop over the wanted ports, for the server of the port and whether start gives
  -- one.
  unfoldable pub started : ℤ → Text → PortsManager → Option Text → Bool → PortsManager
  started port scheme m (some current) opened = record m {
    port_statuses = map_put int_eq port port_published m.port_statuses;
  }
  started port scheme m none true = record m {
    servers = (port, scheme) ∷ m.servers;
    port_statuses = map_put int_eq port port_published m.port_statuses;
  }
  started port scheme m none false = record m {
    port_statuses = map_put int_eq port port_bind_error m.port_statuses;
  }

  unfoldable pub start_port : ℤ → Text → PortsManager → PortsManager
  unfolding opens started
  start_port port scheme m =
      started port scheme m (map_get int_eq port m.servers) (opens port scheme)

  unfoldable pub start_ports : List (ℤ × Text) → PortsManager → PortsManager
  unfolding start_port
  start_ports [] m = m
  start_ports ((port, scheme) ∷ rest) m = start_ports rest (start_port port scheme m)

  -- reconcile: the routes that the store listed, `none` where it failed.
  unfoldable pub reconcile_ports : Option (List Route) → PortsManager → PortsManager
  unfolding want_all drop_conflicts keeps_server start_ports
  reconcile_ports none m = m
  reconcile_ports (some routes) m =
      let wanted = want_all (record { desired = []; conflicts = [] }) routes in
      let desired = drop_conflicts wanted.conflicts wanted.desired in
      start_ports desired (record m {
        servers = keep (keeps_server desired) m.servers;
        port_statuses = conflict_statuses wanted.conflicts;
      })

-- stopAll
unfoldable pub stop_all : PortsManager → PortsManager
stop_all m = record m { servers = []; port_statuses = [] }
