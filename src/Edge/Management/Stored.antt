-- ===== src/Edge/Management/Stored.antt =====
-- The routes that the API lets into the store keep off the paths of the console.
use portloom.Api.Config.{Config}
use portloom.Api.Routes.{reserves, route_uses_reserved_domain}
use portloom.Domain.Agent.{Agent, Time}
use portloom.Domain.Host.{normalize_host}
use portloom.Domain.Host.Laws.{normalize_dns_host_idem}
use portloom.Domain.Host.Plain.{normalize_host-normalize_dns_host}
use portloom.Domain.PathPrefix.Laws.{IsPathPrefix, normalize_path_prefix_of_IsPathPrefix}
use portloom.Domain.Route.{Protocol, Route, is_web, valid, validate}
use portloom.Domain.Route.Endpoint.{IsEndpointOf, validate-IsEndpointOf, validate-protocol}
use portloom.Domain.Route.Laws.{validate-IsValid}
use portloom.Edge.Management.{IsUnreserved}
use portloom.Edge.Management.Reaches.{normalize_host-nil}
use portloom.Prelude.{
  Bool, Bool-cases, Option, Option-cases, Text, [], ap, arith, false, inl, inr, some, subst, sym,
  true, ℕ, ℤ, ◌==◌, ◌∙◌, ◌∷◌, ◌≡◌,
}
use portloom.Store.Claim.{again, claim_enrollment_token-Claim, first}
use portloom.Store.Db.{AgentRow, Db, agent_with_id, insert_agent, insert_route, ok, stored}
use portloom.Store.Enrollment.{
  claim_enrollment_token, consume_enrollment_token, create_enrollment_token,
  delete_enrollment_token, issue_enrollment_token,
}
use portloom.Store.Routes.{bump_desired_revision}
use portloom.Store.SshKeys.{set_agent_ssh_key}
use portloom.Strings.Laws.{IsLowerTable}

module _ (unicode_lower : ℕ → ℕ) (config : Config) where
  -- Unreserved is said of four fields.
  pub IsUnreserved-same :
      (r s : Route)
      → r.protocol ≡ s.protocol
      → r.domain ≡ s.domain
      → r.path_prefix ≡ s.path_prefix
      → r.public_port ≡ s.public_port
      → IsUnreserved unicode_lower config r
      → IsUnreserved unicode_lower config s
  unfolding route_uses_reserved_domain reserves
  IsUnreserved-same r s protocol domain prefix port h =
      let reserved : Protocol → Text → Text → ℤ → Bool = λ p d x n.
        route_uses_reserved_domain unicode_lower config
          (record s { protocol = p; domain = d; path_prefix = x; public_port = n }) in
      record {
        domain = ap (normalize_host unicode_lower) (sym domain) ∙ h.domain ∙ domain;
        prefix = subst IsPathPrefix prefix h.prefix;
        free =
            subst (λ n. reserved s.protocol s.domain s.path_prefix n ≡ false) port
              (subst (λ x. reserved s.protocol s.domain x r.public_port ≡ false) prefix
                (subst (λ d. reserved s.protocol d r.path_prefix r.public_port ≡ false) domain
                  (subst (λ p. reserved p r.domain r.path_prefix r.public_port ≡ false) protocol
                    h.free)));
      }

  -- A web route that Validate accepts is reserved exactly as it came.
  reserves-valid :
      (raw s : Route)
      → IsEndpointOf unicode_lower raw s
      → reserves raw (some s.path_prefix) ≡ false
      → reserves s (some s.path_prefix) ≡ false
  unfolding reserves
  reserves-valid raw s e h = elim e.port [
    | inl same ↦ ground (arith, e.protocol)
    | inr zero_port ↦ ground (arith, e.protocol)
  ]

  pub IsUnreserved-valid :
      (raw s : Route)
      → IsLowerTable unicode_lower
      → validate unicode_lower raw ≡ valid s
      → route_uses_reserved_domain unicode_lower config raw ≡ false
      → IsUnreserved unicode_lower config s
  unfolding route_uses_reserved_domain
  IsUnreserved-valid raw s table accepted h =
      let protocol = validate-protocol unicode_lower raw s accepted in
      elim (validate-IsValid unicode_lower table raw s accepted).endpoint [
        | inr t ↦ record {
          domain =
              ap (normalize_host unicode_lower) t.domain
              ∙ normalize_host-nil unicode_lower
              ∙ sym t.domain;
          prefix = subst IsPathPrefix (sym t.prefix) tt;
          free = ground (arith, t.stream);
        }
        | inl w ↦
            let web : is_web raw.protocol ≡ true = subst (λ p. is_web p ≡ true) protocol w.web in
            let e = validate-IsEndpointOf unicode_lower raw s web accepted in
            let once =
              normalize_host-normalize_dns_host unicode_lower raw.domain s.domain e.domain in
            let again =
              normalize_host-normalize_dns_host unicode_lower s.domain s.domain
                (normalize_dns_host_idem unicode_lower table raw.domain s.domain e.domain) in
            let prefix = normalize_path_prefix_of_IsPathPrefix s.path_prefix w.prefix in
            record {
              domain = again;
              prefix = w.prefix;
              free = elim (Bool-cases (config.public_host == [])) [
                | inl none_public ↦ ground arith
                | inr public ↦
                    elim (Bool-cases
                      (s.domain == normalize_host unicode_lower config.public_host)) [
                        | inr elsewhere ↦ ground (arith, again)
                        | inl here ↦
                            let fine = reserves-valid raw s e (ground (arith, once, e.prefix)) in
                            ground (arith, again, prefix)
                      ]
              ];
            }
      ]

pub bump-routes :
    (now : Time) (id : Text) (db : Db) (result : ℤ × Db)
    → bump_desired_revision now id db ≡ some result
    → result.1.routes ≡ db.routes
unfolding bump_desired_revision
bump-routes now id db result e = elim (Option-cases (agent_with_id id db.agents)) [
  | inl f ↦ absurd (ground arith)
  | inr (a, f) ↦ ground arith
]

pub insert_route-routes :
    (row : Route) (db db' : Db) → insert_route row db ≡ ok db' → db'.routes ≡ stored row ∷ db.routes
unfolding insert_route
insert_route-routes row db db' e = ground arith

insert_agent-routes :
    (row : AgentRow) (db db' : Db) → insert_agent row db ≡ ok db' → db'.routes ≡ db.routes
unfolding insert_agent
insert_agent-routes row db db' e = ground arith

pub issue-routes :
    (hash_token : Text → Text) (now : Time) (random_token : Option Text) (ttl : ℤ) (db : Db)
    (token : Text) (expires_at : Time) (db' : Db)
    → issue_enrollment_token hash_token now random_token ttl db ≡ ok (token, expires_at, db')
    → db'.routes ≡ db.routes
unfolding issue_enrollment_token create_enrollment_token
issue-routes hash_token now random_token ttl db token expires_at db' e = ground arith

pub claim-routes :
    (hash_token : Text → Text) (now : Time) (random_id : Option Text)
    (token name request agent_token : Text) (db : Db) (a : Agent) (db' : Db)
    → claim_enrollment_token hash_token now random_id token name request agent_token db
      ≡ ok (a, db')
    → db'.routes ≡ db.routes
claim-routes hash_token now random_id token name request agent_token db a db' e =
    let c =
      claim_enrollment_token-Claim hash_token now random_id token name request agent_token db a db'
        e in
    elim c.claim [
      | first unused f ↦
          ap (λ (d : Db). d.routes) f.result ∙ insert_agent-routes _ db f.middle f.inserted
      | again used replay same ↦ ap (λ (d : Db). d.routes) same
    ]

pub consume-routes :
    (hash_token : Text → Text) (now : Time) (random_token random_id : Option Text)
    (token name : Text) (db : Db) (a : Agent) (api_token : Text) (db' : Db)
    → consume_enrollment_token hash_token now random_token random_id token name db
      ≡ ok (a, api_token, db')
    → db'.routes ≡ db.routes
unfolding consume_enrollment_token insert_agent
consume-routes hash_token now random_token random_id token name db a api_token db' e = ground arith

pub delete_token-routes :
    (id : Text) (db db' : Db) → delete_enrollment_token id db ≡ ok db' → db'.routes ≡ db.routes
unfolding delete_enrollment_token
delete_token-routes id db db' e = ground arith

pub set_key-routes :
    (now : Time) (id key : Text) (db db' : Db)
    → set_agent_ssh_key now id key db ≡ ok db'
    → db'.routes ≡ db.routes
unfolding set_agent_ssh_key
set_key-routes now id key db db' e = ground arith
