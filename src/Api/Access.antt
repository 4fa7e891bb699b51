-- ===== src/Api/Access.antt =====
-- Who may change what through the requests to the control plane.
use portloom.Api.{AdminCall, AgentCall, Call, EnrollRequest, Response, State, admin, agent, enroll}
use portloom.Api.Agents.{claimed_response, enrolled_response, handle_enroll}
use portloom.Api.Config.{Config, Env, bearer_token, is_admin, secure_equal}
use portloom.Api.Isolation.{Isolated, serve_agent-Isolated}
use portloom.Api.Serve.{serve, serve_agent, serve_authenticated}
use portloom.Domain.Agent.{Agent, valid_agent_name}
use portloom.Prelude.{
  All, Bool, Bool-cases, List, Option, Text, [], any, ap, arith, bool_eq, false, find,
  if◌then◌else◌, inl, inr, ltb, none, not, refl, some, subst, text_eq_iff, true, ◌&&◌, ◌==◌, ◌∷◌,
  ◌≡◌, ◌≢◌,
}
use portloom.Store.Claim.{again, claim_enrollment_token-Claim, first}
use portloom.Store.Db.{
  >>=-eq-ok, AgentRow, Db, Options, Result, TokenRow, agent_with_hash, err, invalid_agent_token, ok,
  or_err, or_err-eq-ok, scan_agent,
}
use portloom.Store.Enrollment.{
  authenticate_agent, can_consume, claim_enrollment_token, consume_enrollment_token, is_unused,
}
use portloom.Store.Rows.{All-find}
use portloom.Strings.{trim_space}

-- A token that was issued, was not used and has not expired.
abbrev pub is_valid_token : Env → Text → Db → Bool
is_valid_token env token db = any (λ t. can_consume (env.hash_token token) env.now t) db.tokens

-- Why a request could lead from one state to the other.
pub data Access {S : Type 0} (env : Env) (config : Config) (authorization : Text) (s s' : State S)
    : Call S → Type 0 where
  unchanged : {call : Call S} → s' ≡ s → Access env config authorization s s' call
  by_admin :
      {call : AdminCall}
      → config.admin_token ≢ []
      → env.sha256 (bearer_token authorization) ≡ env.sha256 config.admin_token
      → Access env config authorization s s' (admin call)
  by_agent :
      {call : AgentCall S} (row : AgentRow)
      → agent_with_hash (env.hash_token (bearer_token authorization)) s.db.agents ≡ some row
      → Isolated row.id s.db s'.db
      → Access env config authorization s s' (agent call)
  by_token :
      (r : EnrollRequest)
      → is_valid_token env r.token s.db ≡ true
      → Access env config authorization s s' (enroll (some r))

any-find :
    (p q : TokenRow → Bool) (l : List TokenRow) (t : TokenRow)
    → find p l ≡ some t
    → ((x : TokenRow) → p x ≡ true → x ≡ t → q x ≡ true)
    → any q l ≡ true
any-find p q [] t found h = cc
any-find p q (x ∷ l) t found h = elim (Bool-cases (p x)) [
  | inl e ↦ ground (arith, h x e)
  | inr e ↦ ground (arith, any-find p q l t)
]

authenticate_agent-inv :
    (hash_token : Text → Text) (token : Text) (db : Db) (a : Agent)
    → authenticate_agent hash_token token db ≡ ok a
    → (row : AgentRow) × (agent_with_hash (hash_token token) db.agents ≡ some row)
      × (scan_agent row ≡ a)
unfolding authenticate_agent
authenticate_agent-inv hash_token token db a done =
    let lookup = or_err (agent_with_hash (hash_token token) db.agents) invalid_agent_token in
    let (row, found, h) = >>=-eq-ok lookup (λ r. ok (scan_agent r)) done in
    (row, or_err-eq-ok _ _ found, ground arith)

consume-can_consume :
    (env : Env) (token raw_name : Text) (db : Db) (a : Agent) (api_token : Text) (db' : Db)
    → consume_enrollment_token env.hash_token env.now env.random_token env.random_id token raw_name
        db
      ≡ ok (a, api_token, db')
    → is_valid_token env token db ≡ true
unfolding consume_enrollment_token
consume-can_consume env token raw_name db a api_token db' done =
    elim (Bool-cases (is_valid_token env token db)) [
      | inl e ↦ e
      | inr e ↦ elim (Bool-cases (not (token == []) && valid_agent_name (trim_space raw_name))) [
        | inl h ↦ absurd (ground arith)
        | inr h ↦ absurd (ground arith)
      ]
    ]

module _ {S : Type 0} (env : Env) (config : Config) (options : Options) (authorization : Text)
    (s : State S) where
  abbrev Allows : Call S → Response S × State S → Type 0
  Allows call result = Access env config authorization s result.1 call

  claimed_response-Access :
      (r : EnrollRequest) (result : Result (Agent × Db))
      → claim_enrollment_token env.hash_token env.now env.random_id r.token r.name r.request_id
          r.agent_token s.db
        ≡ result
      → Allows (enroll (some r)) (claimed_response env config s result)
  unfolding claimed_response
  claimed_response-Access r (err e) done = unchanged refl
  claimed_response-Access r (ok (a, db')) done =
      let c =
        claim_enrollment_token-Claim env.hash_token env.now env.random_id r.token r.name
          r.request_id r.agent_token s.db a db' done in
      elim c.claim [
        | first unused f ↦ by_token r (
            any-find (λ t. t.token_hash == env.hash_token r.token)
              (λ t. can_consume (env.hash_token r.token) env.now t) s.db.tokens c.row c.found
              (λ x e same. ground (
                arith,
                e,
                unused,
                f.fresh,
                ap (λ y. is_unused y.used_at) same,
                ap (λ y. ltb env.now y.expires_at) same,
              )))
        | again used replay same ↦ unchanged (ap (λ d. record s { db = d }) same)
      ]

  enrolled_response-Access :
      (r : EnrollRequest) (result : Result (Agent × Text × Db))
      → consume_enrollment_token env.hash_token env.now env.random_token env.random_id r.token
          r.name s.db
        ≡ result
      → Allows (enroll (some r)) (enrolled_response env config s result)
  unfolding enrolled_response
  enrolled_response-Access r (err e) done = unchanged refl
  enrolled_response-Access r (ok (a, token, db')) done =
      by_token r (consume-can_consume env r.token r.name s.db a token db' done)

  if-Access :
      (call : Call S) (b : Bool) (x y : Response S × State S)
      → (b ≡ true → Allows call x)
      → (b ≡ false → Allows call y)
      → Allows call (if b then x else y)
  if-Access call true x y p q = p refl
  if-Access call false x y p q = q refl

  handle_enroll-Access :
      (body : Option EnrollRequest) → Allows (enroll body) (handle_enroll env config body s)
  unfolding handle_enroll
  handle_enroll-Access none = unchanged refl
  handle_enroll-Access (some r) =
      if-Access _ (not (valid_agent_name r.name)) _ _ (λ e. unchanged refl)
        (λ e.
          if-Access _ (not (bool_eq (r.request_id == []) (r.agent_token == []))) _ _
            (λ e. unchanged refl)
            (λ e.
              if-Access _ (not (r.request_id == [])) _ _ (λ e. claimed_response-Access r _ refl)
                (λ e. enrolled_response-Access r _ refl)))

  serve_authenticated-Access :
      (call : AgentCall S) (result : Result Agent)
      → authenticate_agent env.hash_token (bearer_token authorization) s.db ≡ result
      → All (λ a. trim_space a.id ≡ a.id) s.db.agents
      → Allows (agent call) (serve_authenticated env config options call result s)
  unfolding serve_authenticated
  serve_authenticated-Access call (err e) done owners = unchanged refl
  serve_authenticated-Access call (ok a) done owners =
      let (row, found, same) =
        authenticate_agent-inv env.hash_token (bearer_token authorization) s.db a done in
      by_agent row found (
        subst (λ x. Isolated row.id s.db (serve_agent env config options x call s).1.db) same
          (serve_agent-Isolated env config options s (scan_agent row) call (
            All-find (λ x. trim_space x.id ≡ x.id)
              (λ x. x.token_hash == env.hash_token (bearer_token authorization)) s.db.agents owners
              found)))

  -- A request changes the state only with the right to do so: a call of the console with the
  -- token of the administrator, which is not empty; a call of an agent with the token of a row of
  -- agents, and then it changes no token, and of agents and routes only that row and its routes; an
  -- enrollment with a token that was issued, was not used and has not expired. The identifiers of
  -- agents have no white space around them.
  pub serve-Access :
      (call : Call S)
      → All (λ a. trim_space a.id ≡ a.id) s.db.agents
      → Access env config authorization s (serve env config options authorization call s).1 call
  unfolding serve is_admin secure_equal
  serve-Access (admin call) owners =
      if-Access _ (is_admin env config authorization) _ _
        (λ e.
          by_admin (λ empty. ground (arith, e, (text_eq_iff config.admin_token []).1 empty))
            ((text_eq_iff (env.sha256 (bearer_token authorization))
                (env.sha256 config.admin_token)).0
              (ground arith)))
        (λ e. unchanged refl)
  serve-Access (agent call) owners =
      if-Access _ (bearer_token authorization == []) _ _ (λ e. unchanged refl)
        (λ e. serve_authenticated-Access call _ refl owners)
  serve-Access (enroll body) owners = handle_enroll-Access body
