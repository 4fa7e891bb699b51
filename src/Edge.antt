-- ===== src/Edge.antt =====
-- internal/edge/edge.go: which requests of the public listeners reach the control plane and which
-- the gateway. The gateway and the control plane are there, and the deadlines of the connection are
-- set or not, as an argument says.
pub mod Certificates
pub mod Ports
pub mod Management
use portloom.Domain.Agent.{Time}
use portloom.Domain.Host.{normalize_host}
use portloom.Domain.Route.{Route}
use portloom.Gateway.{
  Edge, Handler, Outcome, Request, not_found, redirect, serve_http, serve_if_match,
}
use portloom.Net.{join_host_port, split_host_port}
use portloom.Prelude.{
  Bool, List, Option, Text, [], codes, if◌then◌else◌, int_eq, ltb_ℤ, nat_eq, none, not, pos, some,
  sub_ℕ, true, ℕ, ℤ, ◌*◌, ◌++◌, ◌+◌, ◌-◌, ◌==◌, ◌||◌, ◌∷◌,
}
use portloom.Strings.{is_digit, itoa}

-- strconv.Atoi on decimal digits after a sign; a number too large for an int is too large for a
-- port as well.
unfoldable pub digits_value : ℕ → Text → Option ℕ
digits_value n [] = some n
digits_value n (c ∷ s) =
    let rest = digits_value (n * 10 + (c - b'0')) s in if is_digit c then rest else none

abbrev signed : (ℕ → ℤ) → Text → Option ℤ
signed sign [] = none
signed sign (c ∷ s) = elim (digits_value 0 (c ∷ s)) [ none ↦ none | some n ↦ some (sign n) ]

unfoldable pub atoi : Text → Option ℤ
unfolding digits_value
atoi [] = none
atoi (c ∷ s) =
    if nat_eq c b'-'
    then signed (λ n. sub_ℕ 0 n) s
    else if nat_eq c b'+'
    then signed pos s
    else signed pos (c ∷ s)

abbrev pub port_in_range : ℤ → Option ℤ
port_in_range port = if ltb_ℤ port (pos 1) || ltb_ℤ (pos 65535) port then none else some port

unfoldable pub listener_port : Text → Option ℤ
unfolding split_host_port atoi
listener_port address = elim (split_host_port address) [
  | none ↦ none
  | some (host, raw) ↦ elim (atoi raw) [ none ↦ none | some port ↦ port_in_range port ]
]

abbrev pub management_max_body_bytes : ℤ
management_max_body_bytes = pos 1_048_576

-- The captured values of the handler that NewRouter returns.
pub record Router : Type 0 where
  pub public_host : Text
  pub edge : Edge

unfoldable pub new_router : (ℕ → ℕ) → Text → Text → Option Router
unfolding normalize_host listener_port ◌==◌
new_router unicode_lower public_host https_addr =
    let host = normalize_host unicode_lower public_host in
    if host == [] then none else elim (listener_port https_addr) [
      | none ↦ none
      | some port ↦ some (record {
        public_host = host;
        edge = record { scheme = codes "https"; port = port; is_default = true };
      })
    ]

-- Who answers a request of the HTTPS listener.
pub data Answer : Type 0 where
  from_gateway : Outcome → Answer
  deadline_refused too_large : Answer
  -- the control plane, its body limited to management_max_body_bytes
  from_control : Answer

pub record Incoming : Type 0 where
  pub request : Request
  pub content_length : ℤ
  pub deadlines_set : Bool

module _ (sha256 : Text → List ℕ) (h : Handler) (unicode_lower : ℕ → ℕ) (now : Time) where
  unfoldable pub manage : Option Outcome → Incoming → Answer
  manage (some outcome) r = from_gateway outcome
  manage none r =
      if not r.deadlines_set
      then deadline_refused
      else if ltb_ℤ management_max_body_bytes r.content_length
      then too_large
      else from_control

  unfoldable pub route_https : Router → Option (List Route) → Incoming → Answer
  unfolding normalize_host serve_if_match serve_http manage ◌==◌
  route_https router listed r =
      if normalize_host unicode_lower r.request.host == router.public_host
      then manage (serve_if_match sha256 h unicode_lower now router.edge listed r.request) r
      else from_gateway (serve_http sha256 h unicode_lower now router.edge listed r.request)

-- The captured values of the handler that NewHTTPHandler returns.
pub record HttpRouter : Type 0 where
  pub management_host : Text
  pub https_port : ℤ
  pub http_edge : Edge

abbrev http_router : Text → Option ℤ → Option ℤ → Option HttpRouter
http_router host (some http_port) (some https_port) = some (record {
  management_host = host;
  https_port = https_port;
  http_edge = record { scheme = codes "http"; port = http_port; is_default = true };
})
http_router host _ _ = none

unfoldable pub new_http_handler : (ℕ → ℕ) → Text → Text → Text → Option HttpRouter
unfolding normalize_host listener_port ◌==◌
new_http_handler unicode_lower public_host http_addr https_addr =
    let host = normalize_host unicode_lower public_host in
    if host == []
    then none
    else http_router host (listener_port http_addr) (listener_port https_addr)

module _ (sha256 : Text → List ℕ) (h : Handler) (unicode_lower : ℕ → ℕ) (now : Time) where
  unfoldable pub route_http : HttpRouter → Option (List Route) → Request → Outcome
  unfolding normalize_host serve_http join_host_port itoa ◌==◌
  route_http router listed request =
      let host = normalize_host unicode_lower request.host in
      if host == []
      then not_found
      else if host == router.management_host
      then redirect (
          codes "https://"
          ++ (if int_eq router.https_port (pos 443)
              then host
              else join_host_port host (itoa router.https_port))
          ++ request.uri)
      else serve_http sha256 h unicode_lower now router.http_edge listed request
