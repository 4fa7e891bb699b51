-- ===== src/Domain/Route/Laws.antt =====
-- What validation promises, when a route covers a path, and when it is published.
use mathlib.Core.List.{append_assoc}
use portloom.Domain.Agent.{Time}
use portloom.Domain.Host.{normalize_dns_host, normalize_host, valid_host}
use portloom.Domain.Host.Laws.{IsDnsName, normalize_dns_host-IsDnsName}
use portloom.Domain.PathPrefix.{normalize_path_prefix}
use portloom.Domain.PathPrefix.Laws.{IsPathPrefix, normalize_path_prefix-IsPathPrefix}
use portloom.Domain.Route.{
  Route, Validated, default_public_port, invalid, is_stream, is_web, known_protocol, matches_path,
  publication_ready_at, second, trimmed, valid, validate, validate_stream, validate_target,
  validate_web, validate_web_port, ◌>>=◌,
}
use portloom.Prelude.{
  Bool-cases, Option-cases, Text, [], arith, codes, eq_of_parts, false, if◌then◌else◌, inl, inr,
  pos, refl, subst, sym, text_eq_iff, true, ℕ, ℤ, ◌*◌, ◌++◌, ◌+◌, ◌<◌, ◌==◌, ◌↔◌, ◌∙◌, ◌∷◌, ◌≡◌,
  ◌≢◌, ◌≤ℤ◌, ◌≤◌, ◌⊎◌,
}
use portloom.Strings.{has_prefix}
use portloom.Strings.Laws.{IsLowerTable, has_prefix-append, has_prefix_sound, same_prefix}

abbrev pub IsPort : ℤ → Type 0
IsPort p = (pos 1 ≤ℤ p) × (p ≤ℤ pos 65535)

-- What a web route publishes. Port 0 stands for the default port, which is not written out.
pub record IsWebEndpoint (r : Route) : Type 0 where
  pub web : is_web r.protocol ≡ true
  pub domain : IsDnsName r.domain
  pub prefix : IsPathPrefix r.path_prefix
  pub strip : r.strip_path ≡ true → r.path_prefix ≢ []
  pub port : (r.public_port ≡ pos 0) ⊎ IsPort r.public_port
  pub no_default : r.public_port ≢ default_public_port r.protocol

-- What a stream route publishes: a port of its own, and nothing of the web.
pub record IsStreamEndpoint (r : Route) : Type 0 where
  pub stream : is_stream r.protocol ≡ true
  pub domain : r.domain ≡ []
  pub prefix : r.path_prefix ≡ []
  pub strip : r.strip_path ≡ false
  pub port : IsPort r.public_port

pub record IsValid (r : Route) : Type 0 where
  pub name : r.name ≢ []
  pub local_host : valid_host r.local_host ≡ true
  pub local_port : IsPort r.local_port
  pub group : r.tunnel_group ≢ []
  pub endpoint : IsWebEndpoint r ⊎ IsStreamEndpoint r

>>=-eq-valid :
    (m : Validated) (k : Route → Validated) {r' : Route}
    → (m >>= k) ≡ valid r'
    → (r : Route) × (m ≡ valid r) × (k r ≡ valid r')
>>=-eq-valid (valid r) k h = (r, refl, h)
>>=-eq-valid (invalid e) k h = cc

-- The fields that decide what is published and the name stay as they are in the last step.
pub record SameEndpoint (r r' : Route) : Type 0 where
  pub name : r.name ≡ r'.name
  pub protocol : r.protocol ≡ r'.protocol
  pub domain : r.domain ≡ r'.domain
  pub path_prefix : r.path_prefix ≡ r'.path_prefix
  pub strip_path : r.strip_path ≡ r'.strip_path
  pub public_port : r.public_port ≡ r'.public_port

module _ (r : Route) {r' : Route} (done : validate_target r ≡ valid r') where
  pub validate_target-SameEndpoint : SameEndpoint r r'
  unfolding validate_target
  validate_target-SameEndpoint = record {
    name = ground arith;
    protocol = ground arith;
    domain = ground arith;
    path_prefix = ground arith;
    strip_path = ground arith;
    public_port = ground arith;
  }

  validate_target-host : valid_host r'.local_host ≡ true
  unfolding validate_target
  validate_target-host = ground arith

  validate_target-IsPort : IsPort r'.local_port
  unfolding validate_target
  validate_target-IsPort = (ground arith, ground arith)

  validate_target-group : r'.tunnel_group ≢ []
  unfolding validate_target
  validate_target-group e = ground (arith, text_eq_iff r.tunnel_group [])

IsWebEndpoint-same : (r r' : Route) → SameEndpoint r r' → IsWebEndpoint r → IsWebEndpoint r'
IsWebEndpoint-same r r' s w = record {
  web = rw (← s.protocol) w.web;
  domain = rw (← s.domain) w.domain;
  prefix = rw (← s.path_prefix) w.prefix;
  strip = rw (← s.path_prefix, ← s.strip_path) w.strip;
  port = rw (← s.public_port) w.port;
  no_default = rw (← s.public_port, ← s.protocol) w.no_default;
}

IsStreamEndpoint-same :
    (r r' : Route) → SameEndpoint r r' → IsStreamEndpoint r → IsStreamEndpoint r'
IsStreamEndpoint-same r r' s w = record {
  stream = rw (← s.protocol) w.stream;
  domain = rw (← s.domain) w.domain;
  prefix = rw (← s.path_prefix) w.prefix;
  strip = rw (← s.strip_path) w.strip;
  port = rw (← s.public_port) w.port;
}

module _ (r : Route) {r' : Route} (web : is_web r.protocol ≡ true)
    (done : validate_web_port r ≡ valid r') where
  validate_web-IsPort : (r'.public_port ≡ pos 0) ⊎ IsPort r'.public_port
  unfolding validate_web_port
  validate_web-IsPort = ground arith

  validate_web_port-no_default : r'.public_port ≢ default_public_port r'.protocol
  unfolding validate_web_port
  validate_web_port-no_default e =
      ground (arith, eq_of_parts r.public_port (default_public_port r.protocol))

  validate_web_port-strip : r'.strip_path ≡ true → r'.path_prefix ≢ []
  unfolding validate_web_port
  validate_web_port-strip h e = ground (arith, text_eq_iff r.path_prefix [])

  pub validate_web_port-keeps :
      (r'.domain ≡ r.domain)
      × (r'.path_prefix ≡ r.path_prefix)
      × (r'.protocol ≡ r.protocol)
      × (r'.name ≡ r.name)
  unfolding validate_web_port
  validate_web_port-keeps = ground arith

-- Validation by its three steps.
module _ (unicode_lower : ℕ → ℕ) (table : IsLowerTable unicode_lower) where
  validate_web-IsWebEndpoint :
      (r : Route) {r' : Route}
      → is_web r.protocol ≡ true
      → validate_web unicode_lower r ≡ valid r'
      → IsWebEndpoint r' × (r'.name ≡ r.name)
  unfolding validate_web
  validate_web-IsWebEndpoint r {r'} web done =
      elim (Option-cases (normalize_dns_host unicode_lower r.domain)) [
        | inl e ↦ absurd (ground arith)
        | inr (d, e) ↦ elim (Option-cases (normalize_path_prefix r.path_prefix)) [
          | inl q ↦ absurd (ground arith)
          | inr (p, q) ↦
              let s = record r { domain = d; path_prefix = p } in
              let last : validate_web_port s ≡ valid r' = ground arith in
              let (same_domain, same_prefix, same_protocol, same_name) =
                validate_web_port-keeps s web last in
              (
                record {
                  web = rw same_protocol web;
                  domain =
                      rw same_domain
                        (normalize_dns_host-IsDnsName unicode_lower table r.domain d e);
                  prefix = rw same_prefix (normalize_path_prefix-IsPathPrefix r.path_prefix p q);
                  strip = validate_web_port-strip s web last;
                  port = validate_web-IsPort s web last;
                  no_default = validate_web_port-no_default s web last;
                },
                same_name,
              )
        ]
      ]

  validate_stream-IsStreamEndpoint :
      (r : Route) {r' : Route}
      → is_stream r.protocol ≡ true
      → validate_stream unicode_lower r ≡ valid r'
      → IsStreamEndpoint r' × (r'.name ≡ r.name)
  unfolding validate_stream
  validate_stream-IsStreamEndpoint r stream done =
      let no_domain = text_eq_iff (normalize_host unicode_lower r.domain) [] in
      let no_prefix = text_eq_iff r.path_prefix [] in
      (
        record {
          stream = ground arith;
          domain = ground (arith, no_domain);
          prefix = ground (arith, no_prefix);
          strip = ground arith;
          port = (ground arith, ground arith);
        },
        ground arith,
      )

  endpoint_of_steps :
      (r s : Route) {r' : Route}
      → (IsWebEndpoint s ⊎ IsStreamEndpoint s) × (s.name ≡ r.name)
      → r.name ≢ []
      → validate_target s ≡ valid r'
      → IsValid r'
  endpoint_of_steps r s {r'} (point, same_name) named done =
      let same = validate_target-SameEndpoint s done in
      record {
        name = λ e. named (sym same_name ∙ same.name ∙ e);
        local_host = validate_target-host s done;
        local_port = validate_target-IsPort s done;
        group = validate_target-group s done;
        endpoint = elim point [
          | inl w ↦ inl (IsWebEndpoint-same s r' same w)
          | inr t ↦ inr (IsStreamEndpoint-same s r' same t)
        ];
      }

  validate_known :
      (r : Route) {r' : Route}
      → r.name ≢ []
      → known_protocol r.protocol ≡ true
      → ((if is_web r.protocol
            then validate_web unicode_lower r
            else validate_stream unicode_lower r)
          >>= validate_target)
        ≡ valid r'
      → IsValid r'
  validate_known r named known done = elim (Bool-cases (is_web r.protocol)) [
    | inl web ↦
        let (s, first, last) =
          >>=-eq-valid (validate_web unicode_lower r) validate_target (rw web at done) in
        let (w, same) = validate_web-IsWebEndpoint r web first in
        endpoint_of_steps r s (inl w, same) named last
    | inr no_web ↦
        let (s, first, last) =
          >>=-eq-valid (validate_stream unicode_lower r) validate_target (rw no_web at done) in
        let (w, same) = validate_stream-IsStreamEndpoint r (rw no_web at known) first in
        endpoint_of_steps r s (inr w, same) named last
  ]

  -- A route that Validate accepts has a name, a host and port to connect to, a tunnel group, and
  -- either a DNS name with a path prefix and a port other than the default of its scheme, or, for
  -- a stream, a public port and nothing of the web.
  pub validate-IsValid :
      (raw : Route) (r : Route) → validate unicode_lower raw ≡ valid r → IsValid r
  unfolding validate
  validate-IsValid raw r done =
      let t = trimmed unicode_lower raw in
      elim (Bool-cases (t.name == [])) [
        | inl e ↦ absurd (ground arith)
        | inr named ↦ elim (Bool-cases (known_protocol t.protocol)) [
          | inl known ↦
              validate_known t (λ e. ground (arith, text_eq_iff t.name [])) known (ground arith)
          | inr q ↦ absurd (ground arith)
        ]
      ]

-- A path is covered by an empty prefix, by itself, or by a prefix of whole segments.
pub matches_path_iff :
    (r : Route) (path : Text)
    → (matches_path r path ≡ true) ↔ (
        (r.path_prefix ≡ [])
        ⊎ (path ≡ r.path_prefix)
        ⊎ ((rest : Text) × (path ≡ r.path_prefix ++ b'/' ∷ rest)))
unfolding matches_path
matches_path_iff r path = (covered, covers)
  where
    whole : ((r.path_prefix == []) ≡ true) ↔ (r.path_prefix ≡ [])
    whole = text_eq_iff r.path_prefix []

    exact : ((path == r.path_prefix) ≡ true) ↔ (path ≡ r.path_prefix)
    exact = text_eq_iff path r.path_prefix

    covered :
        matches_path r path ≡ true
        → (r.path_prefix ≡ [])
          ⊎ (path ≡ r.path_prefix)
          ⊎ ((rest : Text) × (path ≡ r.path_prefix ++ b'/' ∷ rest))
    covered h = elim (Bool-cases (r.path_prefix == [])) [
      | inl e ↦ inl (whole.0 e)
      | inr e ↦ elim (Bool-cases (path == r.path_prefix)) [
        | inl q ↦ inr (inl (exact.0 q))
        | inr q ↦
            let (rest, same) = has_prefix_sound (r.path_prefix ++ codes "/") path (ground arith) in
            inr (inr (rest, same ∙ append_assoc r.path_prefix (codes "/") rest))
      ]
    ]

    covers :
        (r.path_prefix ≡ [])
          ⊎ (path ≡ r.path_prefix)
          ⊎ ((rest : Text) × (path ≡ r.path_prefix ++ b'/' ∷ rest))
        → matches_path r path ≡ true
    covers (inl e) = rw (whole.1 e)
    covers (inr (inl e)) = ground (arith, exact.1 e)
    covers (inr (inr (rest, e))) =
        let same = e ∙ sym (append_assoc r.path_prefix (codes "/") rest) in
        let found =
          subst (λ t. has_prefix (r.path_prefix ++ codes "/") t ≡ true) (sym same)
            (has_prefix-append (r.path_prefix ++ codes "/") rest) in
        ground arith

-- A route is ready exactly when it is enabled, its tunnel is up, the agent has observed its
-- revision, and the agent was seen at most 90 s ago and at most 5 s ahead of the clock.
pub publication_ready_at_iff :
    (r : Route) (now : Time)
    → (publication_ready_at r now ≡ true) ↔ (
        (r.enabled ≡ true)
        × (r.tunnel_status ≡ codes "up")
        × (r.desired_revision ≤ℤ r.observed_revision)
        × (0 < r.agent_last_seen_at)
        × (now ≤ r.agent_last_seen_at + 90 * second)
        × (r.agent_last_seen_at ≤ now + 5 * second))
unfolding publication_ready_at
publication_ready_at_iff r now = ground (arith, text_eq_iff r.tunnel_status (codes "up"))
