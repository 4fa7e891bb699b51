-- ===== src/Store/Db.antt =====
-- internal/store/store.go: the tables of the schema and the constraints that SQLite keeps for
-- them. An operation is a function from the database to an error or to its result and the new
-- database: an error rolls its transaction back. A time column holds the time that is written to
-- it, and the two expiry columns of a token are one. Rows stand in no particular order.
use portloom.Domain.Agent.{Agent, Time}
use portloom.Domain.Route.{Route, is_stream, is_web, protocol_eq}
use portloom.Prelude.{
  Bool, List, Option, Text, [], any, false, find, if◌then◌else◌, int_eq, ltb_ℤ, none, pos, pos_part,
  refl, some, true, ℕ, ℤ, ◌&&◌, ◌==◌, ◌||◌, ◌∷◌, ◌≡◌,
}

pub data StoreError : Type 0 where
  not_found conflict invalid_input port_range_exhausted : StoreError
  invalid_enrollment_token invalid_agent_token : StoreError
  -- any other error: the random source, a constraint that is not reported as a conflict
  failed : StoreError

pub data Result {ℓ} (A : Type ℓ) : Type ℓ where
  ok : A → Result A
  err : StoreError → Result A

infixl 5 ◌>>=◌ ◌>>◌
abbrev pub ◌>>=◌ {ℓ κ} : {A : Type ℓ} {B : Type κ} → Result A → (A → Result B) → Result B
ok a >>= k = k a
err e >>= k = err e

abbrev pub ◌>>◌ {ℓ} : {B : Type ℓ} → Result (Unit {0}) → Result B → Result B
m >> k = m >>= λ _. k

abbrev pub guard : Bool → StoreError → Result (Unit {0})
guard true e = ok tt
guard false e = err e

-- The value, or an error where there is none.
abbrev pub or_err {ℓ} : {A : Type ℓ} → Option A → StoreError → Result A
or_err none e = err e
or_err (some a) e = ok a

pub >>=-eq-ok {ℓ κ} :
    {A : Type ℓ} {B : Type κ} (m : Result A) (k : A → Result B) {b : B}
    → (m >>= k) ≡ ok b
    → (a : A) × (m ≡ ok a) × (k a ≡ ok b)
>>=-eq-ok (ok a) k h = (a, refl, h)
>>=-eq-ok (err e) k h = cc

pub guard-eq-ok {ℓ} :
    {B : Type ℓ} (test : Bool) (e : StoreError) (k : Result B) {b : B}
    → (guard test e >> k) ≡ ok b
    → (test ≡ true) × (k ≡ ok b)
guard-eq-ok true e k h = (refl, h)
guard-eq-ok false e k h = cc

pub or_err-eq-ok {ℓ} :
    {A : Type ℓ} (o : Option A) (e : StoreError) {a : A} → or_err o e ≡ ok a → o ≡ some a
or_err-eq-ok none e h = cc
or_err-eq-ok (some x) e h = cc

pub record AgentRow : Type 0 where
  pub id : Text
  pub name : Text
  pub token_hash : Text
  pub ssh_public_key : Text
  pub desired_revision : ℤ
  pub observed_revision : ℤ
  pub last_seen_at : Option Time
  pub created_at : Time
  pub updated_at : Time

pub record TokenRow : Type 0 where
  pub token_hash : Text
  pub expires_at : Time
  pub used_at : Option Time
  pub request_id : Text
  pub agent_id : Text
  pub created_at : Time

-- A row of `routes` is a route whose joined and computed fields are not set.
pub record Db : Type 0 where
  pub agents : List AgentRow
  pub tokens : List TokenRow
  pub routes : List Route

abbrev pub empty_db : Db
empty_db = record { agents = []; tokens = []; routes = [] }

pub record Options : Type 0 where
  pub port_range_start : ℕ
  pub port_range_end : ℕ

-- The check of Open.
unfoldable pub open_options : ℤ → ℤ → Option Options
open_options first last =
    if ltb_ℤ first (pos 1) || ltb_ℤ (pos 65535) last || ltb_ℤ last first
    then none
    else some (record { port_range_start = pos_part first; port_range_end = pos_part last })

-- SELECT … FROM agents WHERE id = ?, and by the hash of the token.
abbrev pub agent_with_id : Text → List AgentRow → Option AgentRow
agent_with_id id rows = find (λ a. a.id == id) rows

abbrev pub agent_with_hash : Text → List AgentRow → Option AgentRow
agent_with_hash hash rows = find (λ a. a.token_hash == hash) rows

abbrev pub token_with_hash : Text → List TokenRow → Option TokenRow
token_with_hash hash rows = find (λ t. t.token_hash == hash) rows

-- UPDATE … WHERE: the rows that pass the test are changed.
abbrev pub update_where {ℓ} : {A : Type ℓ} → (A → Bool) → (A → A) → List A → List A
update_where p f [] = []
update_where p f (x ∷ xs) = (if p x then f x else x) ∷ update_where p f xs

-- INSERT INTO agents, with its primary key and the unique hash.
unfoldable pub insert_agent : AgentRow → Db → Result Db
unfolding ◌==◌
insert_agent row db =
    if any (λ a. a.id == row.id || a.token_hash == row.token_hash) db.agents
    then err failed
    else ok (record db { agents = row ∷ db.agents })

-- The columns that the scans of agents.go read.
abbrev pub zero_time : Option Time → Time
zero_time none = 0
zero_time (some t) = t

abbrev pub scan_agent : AgentRow → Agent
scan_agent row = record {
  id = row.id;
  name = row.name;
  desired_revision = row.desired_revision;
  observed_revision = row.observed_revision;
  last_seen_at = zero_time row.last_seen_at;
  created_at = row.created_at;
  updated_at = row.updated_at;
}

-- The routes_web_endpoint and routes_stream_port indexes.
abbrev pub same_web_endpoint : Route → Route → Bool
same_web_endpoint a b =
    is_web a.protocol
    && is_web b.protocol
    && protocol_eq a.protocol b.protocol
    && a.domain == b.domain
    && int_eq a.public_port b.public_port
    && a.path_prefix == b.path_prefix

abbrev pub same_stream_port : Route → Route → Bool
same_stream_port a b =
    is_stream a.protocol
    && is_stream b.protocol
    && ltb_ℤ (pos 0) a.public_port
    && int_eq a.public_port b.public_port

abbrev pub same_endpoint : Route → Route → Bool
same_endpoint a b = same_web_endpoint a b || same_stream_port a b

-- The columns of a route.
abbrev pub stored : Route → Route
stored route = record route { agent_last_seen_at = 0; public_status = [] }

-- INSERT INTO routes: the primary key, the unique remote port, the two indexes and the reference
-- to the agent. mapConstraintError reports the unique ones as a conflict.
unfoldable pub insert_route : Route → Db → Result Db
unfolding ◌==◌ protocol_eq
insert_route row db =
    if any (λ q. q.id == row.id || int_eq q.remote_port row.remote_port || same_endpoint q row)
      db.routes
    then err conflict
    else if any (λ a. a.id == row.client_id) db.agents
    then ok (record db { routes = stored row ∷ db.routes })
    else err failed
