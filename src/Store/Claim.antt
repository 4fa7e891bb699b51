-- ===== src/Store/Claim.antt =====
-- internal/store/store.go: what a second claim of an enrollment token gets.
use portloom.Domain.Agent.{Agent, Time}
use portloom.Prelude.{
  Bool-cases, List, Option, Text, [], any, ap, arith, false, if◌then◌else◌, inl, inr, ltb, refl,
  some, subst, sym, text_eq_iff, true, ◌==◌, ◌∙◌, ◌∷◌, ◌≡◌, ◌≢◌,
}
use portloom.Store.Db.{
  >>=-eq-ok, AgentRow, Db, Result, TokenRow, agent_with_id, failed, guard, guard-eq-ok,
  insert_agent, invalid_enrollment_token, ok, or_err, or_err-eq-ok, scan_agent, token_with_hash,
  update_where, ◌>>=◌, ◌>>◌,
}
use portloom.Store.Enrollment.{
  accepts_claim, can_claim, claim_again, claim_enrollment_token, claim_first, claimed, enrolled,
  is_unused,
}
use portloom.Strings.{trim_space}

-- A claim of a token that was not used: a new agent, and the token is marked.
pub record FirstClaim (hash_token : Text → Text) (now : Time) (random_id : Option Text)
    (token name request agent_token : Text) (row : TokenRow) (db : Db) (a : Agent) (db' : Db)
    : Type 0 where
  pub id : Text
  pub random : random_id ≡ some id
  pub middle : Db
  pub inserted : insert_agent (enrolled id name (hash_token agent_token) now) db ≡ ok middle
  pub agent : a ≡ scan_agent (enrolled id name (hash_token agent_token) now)
  pub fresh : ltb now row.expires_at ≡ true
  pub tokens : List TokenRow
  pub marked :
      tokens
      ≡ update_where
          (can_claim hash_token now (hash_token token))
          (claimed hash_token now request id)
          middle.tokens
  pub result : db' ≡ record middle { tokens = tokens }

pub data ClaimCase (hash_token : Text → Text) (now : Time) (random_id : Option Text)
    (token name request agent_token : Text) (row : TokenRow) (db : Db) (a : Agent) (db' : Db)
    : Type 0 where
  first :
      is_unused row.used_at ≡ true
      → FirstClaim hash_token now random_id token name request agent_token row db a db'
      → ClaimCase hash_token now random_id token name request agent_token row db a db'
  again :
      is_unused row.used_at ≡ false
      → claim_again hash_token now name request agent_token row db ≡ ok (a, db')
      → db' ≡ db
      → ClaimCase hash_token now random_id token name request agent_token row db a db'

-- What a claim that succeeds went through.
pub record Claim (hash_token : Text → Text) (now : Time) (random_id : Option Text)
    (token name request agent_token : Text) (db : Db) (a : Agent) (db' : Db) : Type 0 where
  pub checked :
      accepts_claim token (trim_space name) (trim_space request) (trim_space agent_token) ≡ true
  pub row : TokenRow
  pub found : token_with_hash (hash_token token) db.tokens ≡ some row
  pub claim :
      ClaimCase hash_token now random_id token
        (trim_space name)
        (trim_space request)
        (trim_space agent_token)
        row
        db
        a
        db'

module _ (hash_token : Text → Text) (now : Time) (random_id : Option Text) where
  find-update :
      (hash : Text) (request id : Text) (l : List TokenRow) (row : TokenRow)
      → token_with_hash hash l ≡ some row
      → is_unused row.used_at ≡ true
      → token_with_hash hash
          (update_where (can_claim hash_token now hash) (claimed hash_token now request id) l)
        ≡ some (claimed hash_token now request id row)
  find-update hash request id [] row found unused = cc
  find-update hash request id (t ∷ l) row found unused = elim (Bool-cases (t.token_hash == hash)) [
    | inl e ↦ ground arith
    | inr e ↦ ground (arith, find-update hash request id l row)
  ]

  claim_again-ok :
      (name request agent_token : Text) (row : TokenRow) (agent : AgentRow) (db : Db)
      → row.request_id ≡ request
      → row.agent_id ≢ []
      → agent_with_id row.agent_id db.agents ≡ some agent
      → agent.name ≡ name
      → agent.token_hash ≡ hash_token agent_token
      → claim_again hash_token now name request agent_token row db
        ≡ ok (record (scan_agent agent) { last_seen_at = 0 }, db)
  unfolding claim_again
  claim_again-ok name request agent_token row agent db same_request owned found same_name
        same_hash =
      let r = (text_eq_iff row.request_id request).1 same_request in
      let i : (row.agent_id == []) ≡ false = ground (arith, text_eq_iff row.agent_id []) in
      let n = (text_eq_iff agent.name name).1 same_name in
      let h = (text_eq_iff agent.token_hash (hash_token agent_token)).1 same_hash in
      simp (r, i, found, n, h) refl

  claim_first-inv :
      (token name request agent_token : Text) (row : TokenRow) (db : Db) (a : Agent) (db' : Db)
      → claim_first hash_token now random_id token name request agent_token row db ≡ ok (a, db')
      → FirstClaim hash_token now random_id token name request agent_token row db a db'
  unfolding claim_first
  claim_first-inv token name request agent_token row db a db' done =
      let hash = hash_token token in
      let agent_of : Text → AgentRow = λ i. enrolled i name (hash_token agent_token) now in
      let mark : Text → Db → List TokenRow = λ i d.
        update_where (can_claim hash_token now hash) (claimed hash_token now request i) d.tokens in
      let last : Text → Db → Result (Agent × Db) = λ i d.
        guard (any (can_claim hash_token now hash) d.tokens) invalid_enrollment_token
        >> ok (scan_agent (agent_of i), record d { tokens = mark i d }) in
      let insert : Text → Result (Agent × Db) = λ i. insert_agent (agent_of i) db >>= last i in
      let (fresh, h1) =
        guard-eq-ok (ltb now row.expires_at) invalid_enrollment_token
          (or_err random_id failed >>= insert) done in
      let (id, random, h2) = >>=-eq-ok (or_err random_id failed) insert h1 in
      let (middle, inserted, h3) = >>=-eq-ok (insert_agent (agent_of id) db) (last id) h2 in
      let (there, h4) =
        guard-eq-ok (any (can_claim hash_token now hash) middle.tokens) invalid_enrollment_token
          (ok (scan_agent (agent_of id), record middle { tokens = mark id middle })) h3 in
      record {
        id = id;
        random = or_err-eq-ok random_id failed random;
        middle = middle;
        inserted = inserted;
        agent = ground arith;
        fresh = fresh;
        tokens = mark id middle;
        marked = refl;
        result = ground arith;
      }

  claim_again-same :
      (name request agent_token : Text) (row : TokenRow) (db : Db) (a : Agent) (db' : Db)
      → claim_again hash_token now name request agent_token row db ≡ ok (a, db')
      → db' ≡ db
  unfolding claim_again
  claim_again-same name request agent_token row db a db' done = ground arith

  pub claim_enrollment_token-Claim :
      (token name request agent_token : Text) (db : Db) (a : Agent) (db' : Db)
      → claim_enrollment_token hash_token now random_id token name request agent_token db
        ≡ ok (a, db')
      → Claim hash_token now random_id token name request agent_token db a db'
  unfolding claim_enrollment_token
  claim_enrollment_token-Claim token raw_name raw_request raw_token db a db' done =
      let name = trim_space raw_name in
      let request = trim_space raw_request in
      let agent_token = trim_space raw_token in
      let next : TokenRow → Result (Agent × Db) = λ r.
        if is_unused r.used_at
        then claim_first hash_token now random_id token name request agent_token r db
        else claim_again hash_token now name request agent_token r db in
      let lookup = or_err (token_with_hash (hash_token token) db.tokens) invalid_enrollment_token in
      let (checked, h1) =
        guard-eq-ok (accepts_claim token name request agent_token) invalid_enrollment_token
          (lookup >>= next) done in
      let (row, found, h2) = >>=-eq-ok lookup next h1 in
      record {
        checked = checked;
        row = row;
        found = or_err-eq-ok (token_with_hash (hash_token token) db.tokens) _ found;
        claim = elim (Bool-cases (is_unused row.used_at)) [
          | inl e ↦
              first e (claim_first-inv token name request agent_token row db a db' (ground arith))
          | inr e ↦
              let replay : claim_again hash_token now name request agent_token row db
                  ≡ ok (a, db') =
                ground arith in
              again e replay (claim_again-same name request agent_token row db a db' replay)
        ];
      }

pub agent_with_id-inserted :
    (row : AgentRow) (db db' : Db)
    → insert_agent row db ≡ ok db'
    → (agent_with_id row.id db'.agents ≡ some row) × (db'.tokens ≡ db.tokens)
unfolding insert_agent
agent_with_id-inserted row db db' done =
    let same : db' ≡ record db { agents = row ∷ db.agents } = ground arith in
    let own = (text_eq_iff row.id row.id).1 refl in rw same (rw own (refl, refl))

-- The claim of a token that the request used before goes the second way.
claim-again-ok :
    (hash_token : Text → Text) (now : Time) (random_id : Option Text)
    (token name request agent_token : Text) (row : TokenRow) (db : Db) (a : Agent)
    → accepts_claim token (trim_space name) (trim_space request) (trim_space agent_token) ≡ true
    → token_with_hash (hash_token token) db.tokens ≡ some row
    → is_unused row.used_at ≡ false
    → claim_again hash_token now
        (trim_space name)
        (trim_space request)
        (trim_space agent_token)
        row
        db
      ≡ ok (a, db)
    → claim_enrollment_token hash_token now random_id token name request agent_token db ≡ ok (a, db)
unfolding claim_enrollment_token
claim-again-ok hash_token now random_id token name request agent_token row db a checked found used
      replay =
    simp (checked, found, used, replay) refl

claim_again-later :
    (hash_token : Text → Text) (now later : Time) (name request agent_token : Text) (row : TokenRow)
    (db : Db)
    → claim_again hash_token later name request agent_token row db
      ≡ claim_again hash_token now name request agent_token row db
unfolding claim_again
claim_again-later hash_token now later name request agent_token row db = refl

-- A claim that succeeded can be made again, at any time: it gives the same agent and changes
-- nothing, so an agent that lost the answer is enrolled once. The identifier of the new agent is
-- not empty.
pub claim_enrollment_token-claim_enrollment_token :
    (hash_token : Text → Text) (now later : Time) (random_id other_id : Option Text)
    (token name request agent_token : Text) (db : Db) (a : Agent) (db' : Db)
    → random_id ≢ some []
    → claim_enrollment_token hash_token now random_id token name request agent_token db
      ≡ ok (a, db')
    → claim_enrollment_token hash_token later other_id token name request agent_token db'
      ≡ ok (a, db')
claim_enrollment_token-claim_enrollment_token hash_token now later random_id other_id token name
      request agent_token db a db' named done =
    let c =
      claim_enrollment_token-Claim hash_token now random_id token name request agent_token db a db'
        done in
    elim c.claim [
      | first unused f ↦
          let row = claimed hash_token now (trim_space request) f.id c.row in
          let agent = enrolled f.id (trim_space name) (hash_token (trim_space agent_token)) now in
          let (there, same_tokens) = agent_with_id-inserted agent db f.middle f.inserted in
          let found =
            find-update hash_token now random_id (hash_token token) (trim_space request) f.id
              db.tokens c.row c.found unused in
          subst
            (λ d.
              claim_enrollment_token hash_token later other_id token name request agent_token d
              ≡ ok (a, d))
            (sym f.result)
            (claim-again-ok hash_token later other_id token name request agent_token row
              (record f.middle { tokens = f.tokens }) a c.checked
              (ap (token_with_hash (hash_token token)) (
                  f.marked
                  ∙ ap
                      (update_where (can_claim hash_token now (hash_token token))
                        (claimed hash_token now (trim_space request) f.id))
                      same_tokens)
                ∙ found)
              refl
              (claim_again-ok hash_token later other_id (trim_space name) (trim_space request)
                  (trim_space agent_token) row agent (record f.middle { tokens = f.tokens }) refl
                  (λ e. named (f.random ∙ ap some e)) there refl refl
                ∙ ap (λ x. ok (x, record f.middle { tokens = f.tokens })) (sym f.agent)))
      | again used replay same ↦
          subst
            (λ d.
              claim_enrollment_token hash_token later other_id token name request agent_token d
              ≡ ok (a, d))
            (sym same)
            (claim-again-ok hash_token later other_id token name request agent_token c.row db a
              c.checked c.found used
              (claim_again-later hash_token now later (trim_space name) (trim_space request)
                  (trim_space agent_token) c.row db
                ∙ replay
                ∙ ap (λ d. ok (a, d)) same))
    ]
