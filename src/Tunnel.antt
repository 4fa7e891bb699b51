-- ===== src/Tunnel.antt =====
-- internal/agent/types.go and reconciler.go: the state of an agent's tunnels and the effects that
-- they are kept with. The SSH client, the health checker and the listening sockets belong to an
-- outside world `W`: each call takes it and gives it back, with an error's message where it fails.
pub mod Forwarding
pub mod Serve
pub mod Reconcile
pub mod Sync
use portloom.Domain.Route.{Route}
use portloom.Prelude.{Bool, List, Option, Text, false, int_eq, true, ℤ, ◌&&◌, ◌==◌}

pub data Status : Type 0 where
  unset up down disabled error : Status

abbrev pub is_error : Status → Bool
is_error error = true
is_error _ = false

pub record Forward : Type 0 where
  pub bind_host : Text
  pub remote_port : ℤ
  pub local_host : Text
  pub local_port : ℤ

unfoldable pub same_forward : Forward → Forward → Bool
unfolding ◌==◌
same_forward a b =
    a.bind_host == b.bind_host
    && int_eq a.remote_port b.remote_port
    && a.local_host == b.local_host
    && int_eq a.local_port b.local_port

pub record Desired : Type 0 where
  pub revision : ℤ
  pub routes : List Route
  -- whether the slice is nil, and not one without elements
  pub is_nil : Bool

pub record Observation : Type 0 where
  pub route_id : Text
  pub local_status : Status
  pub tunnel_status : Status
  pub message : Text

pub record Observed : Type 0 where
  pub revision : ℤ
  pub routes : List Observation

pub record Relay : Type 0 where
  pub target : Text
  pub port : ℤ

pub data Opened : Type 0 where
  opened : ℤ → Opened
  refused : Text → Opened

-- SSHRunner, HealthChecker and newUDPRelay's listener.
pub record Runner (W : Type 0) : Type 0 where
  pub check_master : W → Option Text × W
  pub close_master : W → Option Text × W
  pub ensure_master : W → Option Text × W
  pub forward : Forward → W → Option Text × W
  pub cancel : Forward → W → Option Text × W
  pub check_local : Text → ℤ → W → Option Text × W
  pub listen_relay : W → Opened × W
  pub close_relay : Relay → W → W

pub record Reconciler (W : Type 0) : Type 0 where
  pub active : List (Text × Forward)
  pub relays : List (Text × Relay)
  pub master_ready : Bool
  pub observed_revision : ℤ
  pub world : W
