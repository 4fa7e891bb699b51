-- ===== src/Store/Invariant/Enroll.antt =====
-- The enrollment of an agent keeps the invariant: a new agent has no routes yet.
use portloom.Domain.Agent.{Agent, Time, valid_agent_name}
use portloom.Domain.Route.{Route}
use portloom.Prelude.{
  All, All-imp, Bool-cases, List, Option, Text, [], any, arith, false, inl, inr, not, refl, subst,
  sym, text_eq_iff, true, ◌&&◌, ◌==◌, ◌||◌, ◌∙◌, ◌∷◌, ◌≡◌,
}
use portloom.Store.Claim.{again, claim_enrollment_token-Claim, first}
use portloom.Store.Db.{
  >>=-eq-ok, AgentRow, Db, Options, Result, failed, guard, guard-eq-ok, insert_agent,
  invalid_enrollment_token, ok, or_err, scan_agent, update_where, ◌>>=◌, ◌>>◌,
}
use portloom.Store.Enrollment.{
  can_consume, claim_enrollment_token, consume_enrollment_token, enrolled, mark_used,
}
use portloom.Store.Invariant.{AgentOk, DistinctAgents, HasOwner, WellFormed}
use portloom.Store.Invariant.Others.{tokens-WellFormed}
use portloom.Store.Rows.{All-find, find_sound}
use portloom.Strings.{trim_space}

AgentOk-enrolled : (id name hash : Text) (now : Time) → AgentOk (enrolled id name hash now)
AgentOk-enrolled id name hash now = record { nonneg = omega arith; asked = omega arith }

module _ (row : AgentRow) where
  distinct_from :
      (l : List AgentRow)
      → any (λ a. a.id == row.id || a.token_hash == row.token_hash) l ≡ false
      → All (DistinctAgents row) l
  distinct_from [] h = tt
  distinct_from (a ∷ l) h = (
    (
      (λ e. ground (arith, (text_eq_iff a.id row.id).1 (sym e))),
      (λ e. ground (arith, (text_eq_iff a.token_hash row.token_hash).1 (sym e))),
    ),
    distinct_from l (ground arith),
  )

  -- An owner is still found behind the new row.
  HasOwner-cons :
      (agents : List AgentRow)
      → All (DistinctAgents row) agents
      → (r : Route) → HasOwner agents r
      → HasOwner (row ∷ agents) r
  HasOwner-cons agents d r h =
      let p = λ (a : AgentRow). a.id == r.client_id in
      let is_owner : (h.agent.id == r.client_id) ≡ true = find_sound p agents h.found in
      let apart = All-find (DistinctAgents row) p agents d h.found in
      record {
        agent = h.agent;
        found = elim (Bool-cases (row.id == r.client_id)) [
          | inl e ↦ absurd (
              apart.0 (
                (text_eq_iff row.id r.client_id).0 e
                ∙ sym ((text_eq_iff h.agent.id r.client_id).0 is_owner)))
          | inr e ↦ rw (e, h.found) refl
        ];
        desired = h.desired;
        observed = h.observed;
      }

pub insert_agent-WellFormed :
    (options : Options) (row : AgentRow) (db db' : Db)
    → WellFormed options db
    → AgentOk row
    → insert_agent row db ≡ ok db'
    → WellFormed options db'
unfolding insert_agent
insert_agent-WellFormed options row db db' w good done =
    let clear : any (λ a. a.id == row.id || a.token_hash == row.token_hash) db.agents ≡ false =
      ground arith in
    let apart = distinct_from row db.agents clear in
    let result : record db { agents = row ∷ db.agents } ≡ db' = ground arith in
    subst (WellFormed options) result (record {
      agents_distinct = (apart, w.agents_distinct);
      agents_ok = (good, w.agents_ok);
      routes_distinct = w.routes_distinct;
      routes_ok = w.routes_ok;
      owned = All-imp db.routes (HasOwner-cons row db.agents apart) w.owned;
    })

module _ (hash_token : Text → Text) (now : Time) (options : Options) (random_id : Option Text)
    (db : Db) (w : WellFormed options db) where
  -- A claim that succeeds keeps the invariant.
  pub claim_enrollment_token-WellFormed :
      (token name request agent_token : Text) (a : Agent) (db' : Db)
      → claim_enrollment_token hash_token now random_id token name request agent_token db
        ≡ ok (a, db')
      → WellFormed options db'
  claim_enrollment_token-WellFormed token name request agent_token a db' done =
      elim (claim_enrollment_token-Claim hash_token now random_id token name request agent_token db
        a db' done).claim [
          | first unused c ↦
              let row = enrolled c.id (trim_space name) (hash_token (trim_space agent_token)) now in
              subst (WellFormed options) (sym c.result) (
                tokens-WellFormed options c.middle
                  (insert_agent-WellFormed options row db c.middle w (AgentOk-enrolled c.id _ _ now)
                    c.inserted)
                  c.tokens)
          | again agent found same ↦ subst (WellFormed options) (sym same) w
        ]

  -- Consuming a token enrols an agent too.
  pub consume_enrollment_token-WellFormed :
      (random_token : Option Text) (token name : Text) (a : Agent) (api_token : Text) (db' : Db)
      → consume_enrollment_token hash_token now random_token random_id token name db
        ≡ ok (a, api_token, db')
      → WellFormed options db'
  unfolding consume_enrollment_token
  consume_enrollment_token-WellFormed random_token token raw_name a api_token db' done =
      let name = trim_space raw_name in
      let used = hash_token token in
      let marked : Db = record db {
        tokens = update_where (can_consume used now) (mark_used now) db.tokens;
      } in
      let row : Text → Text → AgentRow = λ t i. enrolled i name (hash_token t) now in
      let last : Text → Text → Db → Result (Agent × Text × Db) =
        λ t i d. ok (scan_agent (row t i), t, d) in
      let insert : Text → Text → Result (Agent × Text × Db) =
        λ t i. insert_agent (row t i) marked >>= last t i in
      let identify : Text → Result (Agent × Text × Db) =
        λ t. or_err random_id failed >>= insert t in
      let random : Result (Agent × Text × Db) = or_err random_token failed >>= identify in
      let (named, h1) =
        guard-eq-ok (not (token == []) && valid_agent_name name) invalid_enrollment_token
          (guard (any (can_consume used now) db.tokens) invalid_enrollment_token >> random) done in
      let (there, h2) =
        guard-eq-ok (any (can_consume used now) db.tokens) invalid_enrollment_token random h1 in
      let (t, drawn, h3) = >>=-eq-ok (or_err random_token failed) identify h2 in
      let (i, identified, h4) = >>=-eq-ok (or_err random_id failed) (insert t) h3 in
      let (d, inserted, h5) = >>=-eq-ok (insert_agent (row t i) marked) (last t i) h4 in
      let same : d ≡ db' = ground arith in
      let wm =
        tokens-WellFormed options db w
          (update_where (can_consume used now) (mark_used now) db.tokens) in
      subst (WellFormed options) same (
        insert_agent-WellFormed options (row t i) marked d wm
          (AgentOk-enrolled i name (hash_token t) now) inserted)
