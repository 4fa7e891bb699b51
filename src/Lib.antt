-- ===== src/Lib.antt =====
-- Portloom publishes services of machines behind NAT through a server with a public address. Agents
-- enroll with the server, fetch the routes that they are asked for, keep an SSH tunnel to the server
-- for each, and report what they observe; the server's gateway sends public requests into the
-- tunnels.
--
-- The program's parts, and the files that model them:
-- * internal/domain (Domain): the data of routes and agents. normalize_host, normalize_dns_host and
--   valid_host (Domain/Host), normalize_path_prefix (Domain/PathPrefix), validate, matches_path and
--   publication_ready_at (Domain/Route) stand for the Go functions of those names. Domain/Agent has
--   the other records and valid_agent_name.
-- * internal/store (Store): the tables of the database, with the constraints of the schema
--   (Store/Db), and one function for each operation: Store/Routes for routes.go, Store/Heartbeat for
--   Heartbeat, Store/Enrollment for the tokens of store.go and lists.go, Store/SshKeys for
--   ssh_keys.go. An operation takes the tables and gives an error or the new tables. Store/Invariant
--   says what a well formed database is, and Store/Invariant/Reach follows the operations.
-- * internal/gateway/gateway.go (Gateway): the choice of a route, ServeHTTP, ServeIfMatch and the
--   address and path that the proxy asks for.
-- * internal/managedssh/address.go (Managedssh): the loopback address of an agent.
-- * internal/metrics/metrics.go (Metrics): counters for each route and the series of the last hour.
-- * internal/udpframe/udpframe.go (Udpframe): datagrams in frames of a byte stream.
-- * internal/tcpedge/manager.go (Tcpedge): which listeners a reconciliation keeps and opens, what
--   PublicStatus reports, the slots of connections, and the sessions of a UDP listener
--   (Tcpedge/Sessions), one definition for each critical section and each operation of a channel.
-- * internal/authorizedkeys/authorizedkeys.go (Authorizedkeys): Normalize, and the lines that Write
--   puts into the file of keys.
-- * internal/api (Api): the handlers of api.go in Api/Routes and Api/Agents, who may call them in
--   Api/Config and Api/Serve. A request is the pattern that it matched with its decoded body, and a
--   response its status and what it encodes. Api/Access and Api/Refinement relate them to the store.
-- * internal/edge (Edge): the dispatch of edge.go, the policy of tls.go with the endpoint of
--   internal/api/tls_ask.go in Edge/Certificates, and the extra ports of ports.go in Edge/Ports.
--   Edge/Management puts the API, the store and the dispatch together for the paths of the console.
-- * internal/agent (Tunnel): reconciler.go in Tunnel/Forwarding, Tunnel/Serve and Tunnel/Reconcile,
--   with its state in Tunnel, and sync.go in Tunnel/Sync.
-- * internal/sshctl/openssh.go (Sshctl): what the runner asks of ssh about the control socket, and
--   the removal of that socket.
-- Prelude has the shared names, Strings and Net what the code uses of Go's strings, strconv,
-- unicode and net packages, and Maps Go's maps as association lists. Tests runs the models on
-- concrete inputs.
--
-- The parts meet in the types of Domain: the store keeps routes that validate accepted, the gateway
-- selects among the routes that the store lists, an agent reconciles the routes that the store
-- gives it, and its observations come back through heartbeat. The API reaches the store through the
-- handlers, and the public edge decides whether a request is for the control plane or the gateway.
--
-- Conventions: a Go string is the list of its code points, so it is valid UTF-8; an int is an
-- unbounded integer where the code checks its range, and the counters of traffic wrap as int64
-- does; a time is a number of nanoseconds, and the clock is an argument. Unicode's table of lower
-- case, SHA-256, the random source, the operating system's answer for a port, the path that
-- httputil's SetURL makes, the SSH client, the health checker and the sockets are arguments of the
-- definitions that use them. The loops are recursions on lists, but for allocatePort, whose fuel is
-- the number of ports of the range, the reading of a stream in Udpframe, whose fuel is any number
-- above that of the datagrams, and the waiting for an SSH master to stop, whose rounds stand for
-- the deadline of its context.
--
-- Not modelled: JSON and the multiplexer of HTTP, the copying of bytes between connections, the
-- process of an SSH master that the runner starts itself, the files of the agent and its enrollment,
-- the commands, system statistics, the migrations of older databases, and the transport of HTTP: they
-- are I/O or glue around the parts above. Rows are listed in no particular order.
pub mod Prelude
pub mod Strings
pub mod Net
pub mod Domain
pub mod Edge
pub mod Udpframe
pub mod Metrics
pub mod Managedssh
pub mod Authorizedkeys
pub mod Gateway
pub mod Maps
pub mod Store
pub mod Tcpedge
pub mod Tunnel
pub mod Sshctl
pub mod Api
pub mod Tests
