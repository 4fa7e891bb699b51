-- ===== src/Tests/Database.antt =====
-- Runs of internal/store: a token is issued, an agent enrolls with it, gets a route and reports it.
use portloom.Domain.Host.{normalize_dns_host, normalize_host, valid_host}
use portloom.Domain.PathPrefix.{normalize_path_prefix}
use portloom.Domain.Route.{Route, publication_ready_at, second, validate}
use portloom.Prelude.{
  Text, [], arith, codes, false, if◌then◌else◌, int_eq, none, pos, refl, replicate, some, true, ℕ,
  ℤ, ◌*◌, ◌+ℤ◌, ◌<◌, ◌∷◌, ◌≡◌, ◌≤◌,
}
use portloom.Store.Db.{AgentRow, Db, Options, empty_db, insert_route, ok, scan_agent, stored}
use portloom.Store.Enrollment.{claim_enrollment_token, issue_enrollment_token}
use portloom.Store.Invariant.{WellFormed}
use portloom.Store.Invariant.Published.{create_route-unpublished, update_route-unpublished}
use portloom.Store.Invariant.Reach.{Reach, Reach-WellFormed, after, claim, create, issue, start}
use portloom.Store.Routes.{
  allocate_port, bump_desired_revision, create_route, get_route, public_port_available,
  update_route, write_route,
}
use portloom.Store.Routes.Allocation.{IsFree, allocate_port-IsFree, allocate_port-none}
use portloom.Strings.{trim_space}
use portloom.Tests.Routes.{same_case, same_case-IsLowerTable, web_route}

abbrev pub options : Options
options = record { port_range_start = 20000; port_range_end = 20009 }

abbrev pub plain : Text → Text
plain token = token

abbrev pub key_text : Text
key_text = replicate 64 b'a'

abbrev pub after_issue : Db
after_issue = record {
  agents = [];
  tokens =
      (record {
        token_hash = codes "secret";
        expires_at = 110;
        used_at = none;
        request_id = [];
        agent_id = [];
        created_at = 10;
      })
      ∷ [];
  routes = [];
}

issue_run :
    issue_enrollment_token plain 10 (some (codes "secret")) (pos 100) empty_db
    ≡ ok (codes "secret", 110, after_issue)
unfolding issue_enrollment_token
issue_run = refl

abbrev pub row_of : ℤ → AgentRow
row_of desired = record {
  id = codes "a1";
  name = codes "home";
  token_hash = key_text;
  ssh_public_key = [];
  desired_revision = desired;
  observed_revision = pos 0;
  last_seen_at = none;
  created_at = 20;
  updated_at = if int_eq desired (pos 0) then 20 else 30;
}

abbrev pub after_claim : Db
after_claim = record {
  agents = row_of (pos 0) ∷ [];
  tokens =
      (record {
        token_hash = codes "secret";
        expires_at = 110;
        used_at = some 20;
        request_id = key_text;
        agent_id = codes "a1";
        created_at = 10;
      })
      ∷ [];
  routes = [];
}

pub claim_run :
    claim_enrollment_token plain 20
      (some (codes "a1"))
      (codes "secret")
      (codes "home")
      key_text
      key_text
      after_issue
    ≡ ok (scan_agent (row_of (pos 0)), after_claim)
unfolding claim_enrollment_token
claim_run = refl

abbrev wanted_route : Route
wanted_route = record web_route { agent_last_seen_at = 0 }

abbrev new_route : Route
new_route = record web_route {
  desired_revision = pos 1;
  observed_revision = pos 0;
  local_status = [];
  tunnel_status = [];
  agent_last_seen_at = 0;
  created_at = 30;
  updated_at = 30;
}

abbrev pub after_create : Db
after_create = record after_claim { agents = row_of (pos 1) ∷ []; routes = stored new_route ∷ [] }

create_run :
    create_route same_case 30 options (λ p. true) (some (codes "r1")) wanted_route after_claim
    ≡ ok (new_route, after_create)
unfolding create_route validate trim_space normalize_dns_host normalize_path_prefix valid_host
    normalize_host bump_desired_revision allocate_port public_port_available insert_route ◌+ℤ◌
create_run = refl

steps_run : Reach plain same_case options after_create
steps_run =
    after
      (after
        (after start (issue 10 (some (codes "secret")) (pos 100) (codes "secret", 110) issue_run))
        (claim 20 (some (codes "a1")) (codes "secret") (codes "home") key_text key_text
          (scan_agent (row_of (pos 0))) claim_run))
      (create 30 (λ p. true) (some (codes "r1")) wanted_route new_route (λ e. cc) create_run)

Reach-WellFormed_example : WellFormed options after_create
Reach-WellFormed_example = Reach-WellFormed plain same_case same_case-IsLowerTable options steps_run

allocate_run : allocate_port options (λ p. true) after_create ≡ some 20001
unfolding allocate_port
allocate_run = refl

allocate_port-IsFree_example :
    (20000 ≤ 20001)
    × (20001 ≤ 20009)
    × IsFree (λ p. true) after_create.routes 20001
    × ((q : ℕ) → 20000 ≤ q → q < 20001 → ¬ (IsFree (λ p. true) after_create.routes q))
allocate_port-IsFree_example =
    allocate_port-IsFree options (λ p. true) after_create 20001 allocate_run

abbrev one_port : Options
one_port = record { port_range_start = 20000; port_range_end = 20000 }

exhausted_run : allocate_port one_port (λ p. true) after_create ≡ none
unfolding allocate_port
exhausted_run = refl

allocate_port-none_example : ¬ (IsFree (λ p. true) after_create.routes 20000)
allocate_port-none_example =
    allocate_port-none one_port (λ p. true) after_create exhausted_run 20000 (omega arith)
      (omega arith)

create_route-unpublished_example : publication_ready_at new_route (40 * second) ≡ false
create_route-unpublished_example =
    create_route-unpublished same_case 30 options (λ p. true) (some (codes "r1")) wanted_route
      after_claim new_route after_create (40 * second) create_run

abbrev renamed_route : Route
renamed_route = record new_route { name = codes "notes"; desired_revision = pos 2; updated_at = 50 }

abbrev after_update : Db
after_update = record after_create {
  agents = (record (row_of (pos 2)) { updated_at = 50 }) ∷ [];
  routes = stored renamed_route ∷ [];
}

update_run :
    update_route same_case 50
      (codes "r1")
      (record wanted_route { name = codes "notes" })
      after_create
    ≡ ok (renamed_route, after_update)
unfolding update_route validate trim_space normalize_dns_host normalize_path_prefix valid_host
    normalize_host bump_desired_revision public_port_available get_route write_route ◌+ℤ◌
update_run = refl

update_route-unpublished_example : publication_ready_at renamed_route (60 * second) ≡ false
update_route-unpublished_example =
    update_route-unpublished same_case 50 options (codes "r1")
      (record wanted_route { name = codes "notes" }) after_create renamed_route after_update
      (60 * second) (Reach-WellFormed plain same_case same_case-IsLowerTable options steps_run)
      update_run
