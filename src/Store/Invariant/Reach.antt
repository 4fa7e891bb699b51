-- ===== src/Store/Invariant/Reach.antt =====
-- The databases that the operations of the store reach from an empty one.
use portloom.Domain.Agent.{Agent, RouteObservation, Time}
use portloom.Domain.Route.{Route}
use portloom.Prelude.{
  Bool, List, Option, Text, [], any, ap, arith, keep, ltb_ℤ, none, not, pos, pos_part, some, subst,
  take, ℕ, ℤ, ◌+◌, ◌==◌, ◌∙◌, ◌∷◌, ◌≡◌, ◌≢◌,
}
use portloom.Store.Db.{
  >>=-eq-ok, Db, Options, Result, TokenRow, empty_db, failed, guard, guard-eq-ok, invalid_input,
  not_found, ok, or_err, ◌>>=◌, ◌>>◌,
}
use portloom.Store.Enrollment.{
  claim_enrollment_token, consume_enrollment_token, create_enrollment_token,
  delete_enrollment_token, issue_enrollment_token, token_id_digits,
}
use portloom.Store.Heartbeat.{heartbeat}
use portloom.Store.Invariant.{WellFormed, WellFormed-empty}
use portloom.Store.Invariant.Enroll.{
  claim_enrollment_token-WellFormed, consume_enrollment_token-WellFormed,
}
use portloom.Store.Invariant.Heartbeat.{heartbeat-WellFormed}
use portloom.Store.Invariant.Others.{
  delete_route-WellFormed, set_agent_ssh_key-WellFormed, tokens-WellFormed,
}
use portloom.Store.Invariant.Routes.Create.{Creation-WellFormed}
use portloom.Store.Invariant.Routes.Created.{create_route-Creation}
use portloom.Store.Invariant.Routes.Update.{Change-WellFormed, update_route-Change}
use portloom.Store.Routes.{create_route, delete_route, update_route}
use portloom.Store.SshKeys.{set_agent_ssh_key}
use portloom.Strings.Laws.{IsLowerTable}

-- An operation that succeeds. Identifiers of new rows come from the random source, never empty.
pub data Step (hash_token : Text → Text) (unicode_lower : ℕ → ℕ) (options : Options)
    : Db → Db → Type 0 where
  issue :
      {db db' : Db} (now : Time) (random_token : Option Text) (ttl : ℤ) (result : Text × Time)
      → issue_enrollment_token hash_token now random_token ttl db ≡ ok (result.0, result.1, db')
      → Step hash_token unicode_lower options db db'
  claim :
      {db db' : Db} (now : Time) (random_id : Option Text) (token name request agent_token : Text)
      (a : Agent)
      → claim_enrollment_token hash_token now random_id token name request agent_token db
        ≡ ok (a, db')
      → Step hash_token unicode_lower options db db'
  consume :
      {db db' : Db} (now : Time) (random_token random_id : Option Text) (token name : Text)
      (a : Agent) (api_token : Text)
      → consume_enrollment_token hash_token now random_token random_id token name db
        ≡ ok (a, api_token, db')
      → Step hash_token unicode_lower options db db'
  drop_token :
      {db db' : Db} (id : Text)
      → delete_enrollment_token id db ≡ ok db'
      → Step hash_token unicode_lower options db db'
  set_key :
      {db db' : Db} (now : Time) (id key : Text)
      → set_agent_ssh_key now id key db ≡ ok db'
      → Step hash_token unicode_lower options db db'
  create :
      {db db' : Db} (now : Time) (available : ℕ → Bool) (random_id : Option Text) (raw row : Route)
      → random_id ≢ some []
      → create_route unicode_lower now options available random_id raw db ≡ ok (row, db')
      → Step hash_token unicode_lower options db db'
  update :
      {db db' : Db} (now : Time) (id : Text) (raw row : Route)
      → update_route unicode_lower now id raw db ≡ ok (row, db')
      → Step hash_token unicode_lower options db db'
  delete :
      {db db' : Db} (now : Time) (id : Text)
      → delete_route now id db ≡ ok db'
      → Step hash_token unicode_lower options db db'
  observe :
      {db db' : Db} (now : Time) (id : Text) (observed : ℤ) (os : List RouteObservation)
      → heartbeat now id observed os db ≡ ok db'
      → Step hash_token unicode_lower options db db'

pub data Reach (hash_token : Text → Text) (unicode_lower : ℕ → ℕ) (options : Options)
    : Db → Type 0 where
  start : Reach hash_token unicode_lower options empty_db
  after :
      {db db' : Db}
      → Reach hash_token unicode_lower options db
      → Step hash_token unicode_lower options db db'
      → Reach hash_token unicode_lower options db'

-- A token that is written or deleted leaves the rest alone.
create_token-WellFormed :
    (hash_token : Text → Text) (now : Time) (options : Options) (token : Text) (expires_at : Time)
    (db db' : Db)
    → WellFormed options db
    → create_enrollment_token hash_token now token expires_at db ≡ ok db'
    → WellFormed options db'
unfolding create_enrollment_token
create_token-WellFormed hash_token now options token expires_at db db' w done =
    let row : TokenRow = record {
      token_hash = hash_token token;
      expires_at = expires_at;
      used_at = none;
      request_id = [];
      agent_id = [];
      created_at = now;
    } in
    let same : record db { tokens = row ∷ db.tokens } ≡ db' = ground arith in
    subst (WellFormed options) same (tokens-WellFormed options db w (row ∷ db.tokens))

issue-WellFormed :
    (hash_token : Text → Text) (now : Time) (options : Options) (random_token : Option Text)
    (ttl : ℤ) (result : Text × Time) (db db' : Db)
    → WellFormed options db
    → issue_enrollment_token hash_token now random_token ttl db ≡ ok (result.0, result.1, db')
    → WellFormed options db'
unfolding issue_enrollment_token
issue-WellFormed hash_token now options random_token ttl result db db' w done =
    let expires_at = now + pos_part ttl in
    let create : Text → Result Db = λ t. create_enrollment_token hash_token now t expires_at db in
    let next : Text → Result (Text × Time × Db) = λ t. create t >>= λ d. ok (t, expires_at, d) in
    let (positive, h1) =
      guard-eq-ok (ltb_ℤ (pos 0) ttl) failed (or_err random_token failed >>= next) done in
    let (token, random, h2) = >>=-eq-ok (or_err random_token failed) next h1 in
    let (last, created, h3) = >>=-eq-ok (create token) (λ d. ok (token, expires_at, d)) h2 in
    let same : last ≡ db' = ground arith in
    subst (WellFormed options) same
      (create_token-WellFormed hash_token now options token expires_at db last w created)

delete_token-WellFormed :
    (options : Options) (id : Text) (db db' : Db)
    → WellFormed options db
    → delete_enrollment_token id db ≡ ok db'
    → WellFormed options db'
unfolding delete_enrollment_token
delete_token-WellFormed options id db db' w done =
    let rest = λ (d : Text). keep (λ (t : TokenRow). not (take 12 t.token_hash == d)) db.tokens in
    let next : Text → Result Db = λ d.
      guard (any (λ (t : TokenRow). take 12 t.token_hash == d) db.tokens) not_found
      >> ok (record db { tokens = rest d }) in
    let (digits, h1, h2) = >>=-eq-ok (or_err (token_id_digits id) invalid_input) next done in
    let (there, h3) =
      guard-eq-ok (any (λ (t : TokenRow). take 12 t.token_hash == digits) db.tokens) not_found
        (ok (record db { tokens = rest digits })) h2 in
    let same : record db { tokens = rest digits } ≡ db' = ground arith in
    subst (WellFormed options) same (tokens-WellFormed options db w (rest digits))

module _ (hash_token : Text → Text) (unicode_lower : ℕ → ℕ) (table : IsLowerTable unicode_lower)
    (options : Options) where
  -- A step keeps the database well formed.
  pub Step-WellFormed :
      {db db' : Db}
      → WellFormed options db
      → Step hash_token unicode_lower options db db'
      → WellFormed options db'
  Step-WellFormed {db} {db'} w (issue now random_token ttl result done) =
      issue-WellFormed hash_token now options random_token ttl result db db' w done
  Step-WellFormed {db} {db'} w (claim now random_id token name request agent_token a done) =
      claim_enrollment_token-WellFormed hash_token now options random_id db w token name request
        agent_token a db' done
  Step-WellFormed {db} {db'} w (consume now random_token random_id token name a api_token done) =
      consume_enrollment_token-WellFormed hash_token now options random_id db w random_token token
        name a api_token db' done
  Step-WellFormed {db} {db'} w (drop_token id done) =
      delete_token-WellFormed options id db db' w done
  Step-WellFormed {db} {db'} w (set_key now id key done) =
      set_agent_ssh_key-WellFormed options now id key db db' w done
  Step-WellFormed {db} {db'} w (create now available random_id raw row named done) =
      let c =
        create_route-Creation unicode_lower now options available random_id raw db row db' done in
      Creation-WellFormed unicode_lower table now options available random_id raw db row db' w c
        (λ e. named (c.random ∙ ap some e))
  Step-WellFormed {db} {db'} w (update now id raw row done) =
      Change-WellFormed unicode_lower table now options id raw db row db' w
        (update_route-Change unicode_lower now id raw db row db' done)
  Step-WellFormed {db} {db'} w (delete now id done) =
      delete_route-WellFormed options now id db db' w done
  Step-WellFormed {db} {db'} w (observe now id observed os done) =
      heartbeat-WellFormed options now id observed os db db' w done

  -- Every database that the operations reach from an empty one is well formed: agents differ in
  -- identifier and token, and have observed no negative revision and none that was not asked for;
  -- routes differ in identifier, remote port and public endpoint, are valid, have a remote port of
  -- the range, and belong to an agent that is there, whose desired revision is at least theirs.
  pub Reach-WellFormed :
      {db : Db} → Reach hash_token unicode_lower options db → WellFormed options db
  Reach-WellFormed start = WellFormed-empty options
  Reach-WellFormed (after r s) = Step-WellFormed (Reach-WellFormed r) s
