-- ===== src/Tests/Routes.antt =====
-- Runs of internal/domain.
use portloom.Domain.Host.{normalize_dns_host, normalize_host, valid_host}
use portloom.Domain.Host.Laws.{IsDnsName, normalize_dns_host-IsDnsName}
use portloom.Domain.PathPrefix.{normalize_path_prefix}
use portloom.Domain.PathPrefix.Laws.{IsPathPrefix, normalize_path_prefix-IsPathPrefix}
use portloom.Domain.Route.{Route, https, publication_ready_at, second, valid, validate}
use portloom.Domain.Route.Laws.{IsValid, publication_ready_at_iff, validate-IsValid}
use portloom.Prelude.{
  [], arith, codes, pos, refl, some, true, ℕ, ◌*◌, ◌+◌, ◌<◌, ◌↔◌, ◌≡◌, ◌≤ℤ◌, ◌≤◌,
}
use portloom.Strings.{lower_rune, trim_space}
use portloom.Strings.Laws.{IsLowerTable}

abbrev pub same_case : ℕ → ℕ
same_case c = c

pub same_case-IsLowerTable : IsLowerTable same_case
unfolding lower_rune
same_case-IsLowerTable c big = ground arith

abbrev pub web_route : Route
web_route = record {
  id = codes "r1";
  client_id = codes "a1";
  name = codes "blog";
  protocol = https;
  domain = codes "www.example.com";
  path_prefix = codes "/blog";
  strip_path = true;
  local_host = codes "127.0.0.1";
  local_port = pos 8080;
  remote_port = pos 20000;
  public_port = pos 0;
  tunnel_group = codes "web";
  enabled = true;
  desired_revision = pos 1;
  observed_revision = pos 1;
  local_status = codes "up";
  tunnel_status = codes "up";
  last_error = [];
  agent_last_seen_at = 100 * second;
  public_status = [];
  created_at = 1;
  updated_at = 1;
}

host_run :
    normalize_dns_host same_case (codes " WWW.Example.com. ") ≡ some (codes "www.example.com")
unfolding normalize_dns_host
host_run = refl

normalize_dns_host-IsDnsName_example : IsDnsName (codes "www.example.com")
normalize_dns_host-IsDnsName_example =
    normalize_dns_host-IsDnsName same_case same_case-IsLowerTable (codes " WWW.Example.com. ")
      (codes "www.example.com") host_run

prefix_run : normalize_path_prefix (codes " /blog/2024/ ") ≡ some (codes "/blog/2024")
unfolding normalize_path_prefix
prefix_run = refl

normalize_path_prefix-IsPathPrefix_example : IsPathPrefix (codes "/blog/2024")
normalize_path_prefix-IsPathPrefix_example =
    normalize_path_prefix-IsPathPrefix (codes " /blog/2024/ ") (codes "/blog/2024") prefix_run

validate_run :
    validate same_case (record web_route { name = codes " blog "; public_port = pos 443 })
    ≡ valid web_route
unfolding validate trim_space normalize_dns_host normalize_path_prefix valid_host normalize_host
validate_run = refl

validate-IsValid_example : IsValid web_route
validate-IsValid_example =
    validate-IsValid same_case same_case-IsLowerTable
      (record web_route { name = codes " blog "; public_port = pos 443 }) web_route validate_run

publication_ready_at_iff_example : (publication_ready_at web_route (150 * second) ≡ true) ↔ (
    (web_route.enabled ≡ true)
    × (web_route.tunnel_status ≡ codes "up")
    × (web_route.desired_revision ≤ℤ web_route.observed_revision)
    × (0 < web_route.agent_last_seen_at)
    × (150 * second ≤ web_route.agent_last_seen_at + 90 * second)
    × (web_route.agent_last_seen_at ≤ 150 * second + 5 * second))
publication_ready_at_iff_example = publication_ready_at_iff web_route (150 * second)
