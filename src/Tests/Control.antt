-- ===== src/Tests/Control.antt =====
-- Runs of internal/api and internal/authorizedkeys.
use portloom.Api.{Call, State, admin, agent, post_heartbeat, post_token}
use portloom.Api.Access.{Access, serve-Access}
use portloom.Api.Agents.{handle_heartbeat, handle_issue_token, heard, issue_with, issued_token}
use portloom.Api.Config.{Config, Env, bearer_token, is_admin}
use portloom.Api.Serve.{serve, serve_admin, serve_agent, serve_authenticated}
use portloom.Authorizedkeys.{Entry, Line, normalize, normalize_fields, prepare}
use portloom.Authorizedkeys.Bindings.{IsLine, prepare-Pairwise}
use portloom.Managedssh.{bind_address}
use portloom.Prelude.{
  All, List, Pairwise, Text, [], any, codes, false, none, pos, refl, some, true, ℕ, ◌++◌, ◌==◌, ◌∷◌,
  ◌≡◌, ◌≢◌,
}
use portloom.Store.Claim.{claim_enrollment_token-claim_enrollment_token}
use portloom.Store.Db.{ok, scan_agent}
use portloom.Store.Enrollment.{authenticate_agent, claim_enrollment_token, issue_enrollment_token}
use portloom.Store.Heartbeat.{heartbeat}
use portloom.Strings.{itoa, trim_space}
use portloom.Tests.Database.{after_claim, after_issue, claim_run, key_text, options, plain, row_of}
use portloom.Tests.Routes.{same_case}

abbrev pub config : Config
config = record {
  admin_token = codes "admin";
  enrollment_ttl = pos 100;
  authorized_keys_path = codes "/keys";
  ssh_host_public_key_path = [];
  managed_ssh_port = pos 2222;
  managed_ssh_isolated = true;
  server_version = codes "1";
  public_host = codes "console.example.com";
  tls_ask_token = codes "ask";
  tcp_enabled = true;
  udp_enabled = false;
  web_ports_enabled = false;
  tcp_bind_host = codes "0.0.0.0";
  route_public_status = none;
  route_web_port_status = none;
  tcp_port_reserved = none;
}

abbrev pub env : Env
env = record {
  now = 40;
  random_token = some (codes "t2");
  random_id = some (codes "r2");
  available = λ p. true;
  hash_token = plain;
  sha256 = plain;
  unicode_lower = same_case;
  replace_keys = λ text. true;
  host_key = none;
}

abbrev pub state : State ℕ
state = record { db = after_claim; systems = []; traffic = none; server_stats = none }

abbrev heartbeat_call : Call ℕ
heartbeat_call =
    agent
      (post_heartbeat (some (record { observed_revision = pos 0; routes = []; system = some 7 })))

agent_run :
    (serve env config options (codes "Bearer " ++ key_text) heartbeat_call state).0.status ≡ 204
unfolding serve bearer_token authenticate_agent serve_agent handle_heartbeat heartbeat heard
    serve_authenticated
agent_run = refl

admin_run :
    (serve env config options (codes "Bearer admin") (admin (post_token none)) state).0.status ≡ 201
unfolding serve is_admin serve_admin handle_issue_token issue_with issue_enrollment_token
    issued_token
admin_run = refl

after_claim-trimmed : All (λ a. trim_space a.id ≡ a.id) after_claim.agents
unfolding trim_space
after_claim-trimmed = (refl, tt)

serve-Access_example :
    Access env config
      (codes "Bearer " ++ key_text)
      state
      (serve env config options (codes "Bearer " ++ key_text) heartbeat_call state).1
      heartbeat_call
serve-Access_example =
    serve-Access env config options (codes "Bearer " ++ key_text) state heartbeat_call
      after_claim-trimmed

claim_enrollment_token-claim_enrollment_token_example :
    claim_enrollment_token plain 500 none
      (codes "secret")
      (codes "home")
      key_text
      key_text
      after_claim
    ≡ ok (scan_agent (row_of (pos 0)), after_claim)
claim_enrollment_token-claim_enrollment_token_example =
    claim_enrollment_token-claim_enrollment_token plain 20 500 (some (codes "a1")) none
      (codes "secret") (codes "home") key_text key_text after_issue (scan_agent (row_of (pos 0)))
      after_claim (λ e. cc) claim_run

abbrev public_key : Text
public_key =
    codes "ssh-ed25519 AAAAC3NzaC1lZDI1NTE5AAAAIAAAAAAAAAAAAAAAAAAAAAAAAAAAAAAAAAAAAAAAAAAA"

abbrev entries : List Entry
entries =
    record { agent_id = codes "a1"; public_key = public_key }
    ∷ record { agent_id = codes "b2"; public_key = public_key }
    ∷ []

abbrev lines : List Line
lines =
    record { owner = codes "a1"; key = public_key; address = codes "127.98.49.0" }
    ∷ record { owner = codes "b2"; key = public_key; address = codes "127.99.50.0" }
    ∷ []

prepare_run : prepare plain true [] entries ≡ some lines
unfolding prepare normalize normalize_fields bind_address itoa
prepare_run = refl

prepare-Pairwise_example :
    Pairwise (λ a b. a.address ≢ b.address) lines
    × All (IsLine plain true) lines
    × All (λ line. any (λ a. a == line.address) [] ≡ false) lines
prepare-Pairwise_example = prepare-Pairwise plain [] entries lines prepare_run
