-- ===== src/Api.antt =====
-- internal/api/api.go and metrics.go: the state of the control plane, what its handlers read of a
-- request, and what they answer. encoding/json and net/http's multiplexer are left out: a request is
-- the pattern that it matched, with its decoded body, `none` where decodeJSON refuses it.
pub mod Config
pub mod Routes
pub mod Agents
pub mod Serve
pub mod Refinement
pub mod Isolation
pub mod Access
use portloom.Domain.Agent.{Agent, EnrollmentTokenInfo, RouteObservation, Time}
use portloom.Domain.Route.{Route}
use portloom.Metrics.{Snapshot}
use portloom.Prelude.{Bool, List, Option, Text, ℕ, ℤ}
use portloom.Store.Db.{Db}

-- AgentSystem, for any type of statistics.
pub record AgentSystem (S : Type 0) : Type 0 where
  pub stats : S
  pub reported_at : Time
  pub revision : ℤ

pub record State (S : Type 0) : Type 0 where
  pub db : Db
  -- AgentSystemInfo, which the server always sets
  pub systems : List (Text × AgentSystem S)
  -- what Metrics and ServerStats give, where they are set
  pub traffic : Option Snapshot
  pub server_stats : Option S

pub data Body (S : Type 0) : Type 0 where
  empty : Body S
  failure : Text → Body S
  clients : List Agent → Body S
  tokens : List EnrollmentTokenInfo → Body S
  issued : Text → Time → Body S
  route_list : List Route → Body S
  one_route : Route → Body S
  claimed_agent : Agent → Body S
  enrolled_agent : Agent → Text → Body S
  synced : Agent → ℤ → List Route → Body S
  -- the version, the UDP and the web port edges, managed SSH with its port and host key, and the
  -- host that TCP listeners bind
  system : Text → Bool → Bool → Option (ℤ × Text) → Option Text → Body S
  measured : Option Snapshot → Option S → List (Text × AgentSystem S) → Body S

pub record Response (S : Type 0) : Type 0 where
  pub status : ℕ
  pub body : Body S

-- The bodies of the requests. An expiry that is there is `some`, and its value is `none` where it is
-- no duration or number.
pub record TokenRequest : Type 0 where
  pub expires_in : Option (Option ℤ)
  pub expires_in_seconds : Option (Option ℤ)

pub record EnrollRequest : Type 0 where
  pub token : Text
  pub name : Text
  pub request_id : Text
  pub agent_token : Text

pub record HeartbeatRequest (S : Type 0) : Type 0 where
  pub observed_revision : ℤ
  pub routes : List RouteObservation
  pub system : Option S

pub record ReportedRoute : Type 0 where
  pub route_id : Text
  pub local_status : Text
  pub tunnel_status : Text
  pub message : Text

pub record ObservedRequest (S : Type 0) : Type 0 where
  pub revision : ℤ
  pub routes : List ReportedRoute
  pub system : Option S

pub data AdminCall : Type 0 where
  get_system get_metrics get_clients get_tokens get_routes : AdminCall
  -- `none` for a request without a body
  post_token : Option (Option TokenRequest) → AdminCall
  delete_token : Text → AdminCall
  post_route : Option Route → AdminCall
  get_one_route : Text → AdminCall
  put_route : Text → Option Route → AdminCall
  delete_one_route : Text → AdminCall

pub data AgentCall (S : Type 0) : Type 0 where
  put_ssh_key : Option Text → AgentCall S
  post_heartbeat : Option (HeartbeatRequest S) → AgentCall S
  get_sync : AgentCall S
  post_observed : Option (ObservedRequest S) → AgentCall S

pub data Call (S : Type 0) : Type 0 where
  admin : AdminCall → Call S
  agent : AgentCall S → Call S
  enroll : Option EnrollRequest → Call S
