-- ===== src/Store/Enrollment.antt =====
-- internal/store/store.go and lists.go: enrollment tokens and the agents that they enroll.
-- `hash_token` is the hexadecimal SHA-256 of a token; random values are arguments, `none` where
-- the random source fails.
use portloom.Domain.Agent.{Agent, EnrollmentTokenInfo, Time, valid_agent_name}
use portloom.Net.{is_hex}
use portloom.Prelude.{
  Bool, List, Option, Text, [], all, any, codes, drop, false, if◌then◌else◌, keep, leb, length, ltb,
  ltb_ℤ, map, nat_eq, none, not, pos, pos_part, some, take, true, ℕ, ℤ, ◌&&◌, ◌++◌, ◌+◌, ◌==◌, ◌||◌,
  ◌∷◌,
}
use portloom.Store.Db.{
  AgentRow, Db, Result, TokenRow, agent_with_hash, agent_with_id, err, failed, guard, insert_agent,
  invalid_agent_token, invalid_enrollment_token, invalid_input, not_found, ok, or_err, scan_agent,
  token_with_hash, update_where, ◌>>=◌, ◌>>◌,
}
use portloom.Strings.{has_prefix, is_digit, len, trim_space}

abbrev pub is_hex_text : Text → Bool
is_hex_text s = all is_hex s

unfoldable pub create_enrollment_token : (Text → Text) → Time → Text → Time → Db → Result Db
unfolding trim_space ◌==◌
create_enrollment_token hash_token now token expires_at db =
    if trim_space token == [] || not (ltb now expires_at)
    then err failed
    else if any (λ t. t.token_hash == hash_token token) db.tokens
    then err failed
    else ok (record db {
      tokens =
          (record {
            token_hash = hash_token token;
            expires_at = expires_at;
            used_at = none;
            request_id = [];
            agent_id = [];
            created_at = now;
          })
          ∷ db.tokens;
    })

unfoldable pub issue_enrollment_token :
    (Text → Text) → Time → Option Text → ℤ → Db → Result (Text × Time × Db)
unfolding create_enrollment_token
issue_enrollment_token hash_token now random_token ttl db = do
  guard (ltb_ℤ (pos 0) ttl) failed
  token ← or_err random_token failed
  let expires_at = now + pos_part ttl
  db' ← create_enrollment_token hash_token now token expires_at db
  ok (token, expires_at, db')

-- The row of an agent that has just enrolled.
abbrev pub enrolled : Text → Text → Text → Time → AgentRow
enrolled id name token_hash now = record {
  id = id;
  name = name;
  token_hash = token_hash;
  ssh_public_key = [];
  desired_revision = pos 0;
  observed_revision = pos 0;
  last_seen_at = none;
  created_at = now;
  updated_at = now;
}

abbrev pub is_unused : Option Time → Bool
is_unused none = true
is_unused (some t) = false

-- WHERE token_hash = ? AND used_at IS NULL AND expires_at_unix_nano > ?
abbrev pub can_consume : Text → Time → TokenRow → Bool
can_consume hash now t = t.token_hash == hash && is_unused t.used_at && ltb now t.expires_at

abbrev pub mark_used : Time → TokenRow → TokenRow
mark_used now t = record t { used_at = some now }

-- The checks of ClaimEnrollmentToken before it reads the database.
unfoldable pub accepts_claim : Text → Text → Text → Text → Bool
unfolding valid_agent_name len ◌==◌
accepts_claim token name request_id agent_token =
    not (token == [])
    && valid_agent_name name
    && nat_eq (len request_id) 64
    && nat_eq (len agent_token) 64
    && is_hex_text request_id
    && is_hex_text agent_token

module _ (hash_token : Text → Text) (now : Time) where
  unfoldable pub consume_enrollment_token :
      Option Text → Option Text → Text → Text → Db → Result (Agent × Text × Db)
  unfolding trim_space valid_agent_name insert_agent ◌==◌
  consume_enrollment_token random_token random_id token raw_name db = do
    let name = trim_space raw_name
    let used = hash_token token
    guard (not (token == []) && valid_agent_name name) invalid_enrollment_token
    guard (any (can_consume used now) db.tokens) invalid_enrollment_token
    api_token ← or_err random_token failed
    id ← or_err random_id failed
    let row = enrolled id name (hash_token api_token) now
    let tokens = update_where (can_consume used now) (mark_used now) db.tokens
    db' ← insert_agent row (record db { tokens = tokens })
    ok (scan_agent row, api_token, db')

  -- A token that was used before: the same request gets its agent again.
  unfoldable pub claim_again : Text → Text → Text → TokenRow → Db → Result (Agent × Db)
  unfolding ◌==◌
  claim_again name request_id agent_token row db = do
    guard (row.request_id == request_id && not (row.agent_id == [])) invalid_enrollment_token
    agent ← or_err (agent_with_id row.agent_id db.agents) invalid_enrollment_token
    guard (agent.name == name && agent.token_hash == hash_token agent_token)
        invalid_enrollment_token
    ok (record (scan_agent agent) { last_seen_at = 0 }, db)

  -- WHERE token_hash = ? AND used_at IS NULL, and the columns that a claim writes.
  abbrev pub can_claim : Text → TokenRow → Bool
  can_claim hash t = t.token_hash == hash && is_unused t.used_at

  abbrev pub claimed : Text → Text → TokenRow → TokenRow
  claimed request_id agent_id t = record t {
    used_at = some now;
    request_id = request_id;
    agent_id = agent_id;
  }

  unfoldable pub claim_first :
      Option Text → Text → Text → Text → Text → TokenRow → Db → Result (Agent × Db)
  unfolding insert_agent ◌==◌
  claim_first random_id token name request_id agent_token row db = do
    guard (ltb now row.expires_at) invalid_enrollment_token
    id ← or_err random_id failed
    let agent = enrolled id name (hash_token agent_token) now
    db' ← insert_agent agent db
    guard (any (can_claim (hash_token token)) db'.tokens) invalid_enrollment_token
    ok (
      scan_agent agent,
      record db' {
        tokens = update_where (can_claim (hash_token token)) (claimed request_id id) db'.tokens;
      },
    )

  unfoldable pub claim_enrollment_token :
      Option Text → Text → Text → Text → Text → Db → Result (Agent × Db)
  unfolding trim_space accepts_claim ◌==◌ claim_again claim_first
  claim_enrollment_token random_id token raw_name raw_request raw_agent_token db = do
    let name = trim_space raw_name
    let request_id = trim_space raw_request
    let agent_token = trim_space raw_agent_token
    guard (accepts_claim token name request_id agent_token) invalid_enrollment_token
    row ← or_err (token_with_hash (hash_token token) db.tokens) invalid_enrollment_token
    if is_unused row.used_at
        then claim_first random_id token name request_id agent_token row db
        else claim_again name request_id agent_token row db

unfoldable pub authenticate_agent : (Text → Text) → Text → Db → Result Agent
unfolding ◌==◌
authenticate_agent hash_token token db = do
  row ← or_err (agent_with_hash (hash_token token) db.agents) invalid_agent_token
  ok (scan_agent row)

-- enrollmentTokenIDRE: `token-` and twelve lower case hexadecimal digits.
abbrev pub is_lower_hex : ℕ → Bool
is_lower_hex c = is_digit c || (leb b'a' c && leb c b'f')

unfoldable pub token_id_digits : Text → Option Text
unfolding has_prefix
token_id_digits id =
    let digits = drop 6 id in
    if has_prefix (codes "token-") id && nat_eq (length digits) 12 && all is_lower_hex digits
    then some digits
    else none

unfoldable pub delete_enrollment_token : Text → Db → Result Db
unfolding token_id_digits ◌==◌
delete_enrollment_token id db = do
  digits ← or_err (token_id_digits id) invalid_input
  guard (any (λ t. take 12 t.token_hash == digits) db.tokens) not_found
  ok (record db { tokens = keep (λ t. not (take 12 t.token_hash == digits)) db.tokens })

-- The entry of ListEnrollmentTokens for a row.
abbrev pub token_status : Option Time → Time → Time → Text
token_status (some used) expires_at now = codes "used"
token_status none expires_at now = if ltb now expires_at then codes "available" else codes "expired"

unfoldable pub token_info : Time → TokenRow → EnrollmentTokenInfo
token_info now row = record {
  id = codes "token-" ++ take 12 row.token_hash;
  status = token_status row.used_at row.expires_at now;
  expires_at = row.expires_at;
  created_at = row.created_at;
  used_at = row.used_at;
}

-- ListEnrollmentTokens and ListAgents, but for the order of the rows.
unfoldable pub list_enrollment_tokens : Time → Db → List EnrollmentTokenInfo
unfolding token_info
list_enrollment_tokens now db = map (token_info now) db.tokens

unfoldable pub list_agents : Db → List Agent
list_agents db = map scan_agent db.agents
