-- ===== src/Tests/Serving.antt =====
-- Runs of internal/gateway.
use mathlib.Core.List.{Memᴰ}
use portloom.Domain.Agent.{Time}
use portloom.Domain.Host.{normalize_host}
use portloom.Domain.Route.{Route, publication_ready_at, second}
use portloom.Gateway.{
  Edge, Handler, Outcome, Request, bind_of, eligible, proxied, route_matches, select_route,
  serve_http, serve_if_match, stripped_path,
}
use portloom.Gateway.Selection.{IsBest, select_route-IsBest}
use portloom.Gateway.Serving.{serve_http-proxied, serve_if_match-serve_http}
use portloom.Gateway.Unique.{select_route_unique}
use portloom.Prelude.{
  All, List, Text, [], codes, false, if◌then◌else◌, none, pos, refl, some, sym, true, ℕ, ◌*◌, ◌++◌,
  ◌↔◌, ◌∙◌, ◌∷◌, ◌≡◌,
}
use portloom.Strings.{has_prefix, itoa}
use portloom.Tests.Routes.{same_case, web_route}

abbrev pub https_edge : Edge
https_edge = record { scheme = codes "https"; port = pos 443; is_default = true }

abbrev http_edge : Edge
http_edge = record { scheme = codes "http"; port = pos 80; is_default = true }

-- A path with a slash in front.
abbrev rooted : Text → Text
rooted path = if has_prefix (codes "/") path then path else b'/' ∷ path

abbrev pub handler : Handler
handler = record {
  isolated_agent_bindings = false;
  https_redirect_port = pos 443;
  set_url_path = rooted;
}

abbrev request : Request
request = record {
  host = codes "www.example.com:443";
  path = codes "/blog/x";
  uri = codes "/blog/x?q=1";
}

abbrev pub no_digest : Text → List ℕ
no_digest t = []

abbrev pub listed : List Route
listed = web_route ∷ []

abbrev pub clock : Time
clock = 150 * second

abbrev site : Text
site = codes "www.example.com"

select_run : select_route clock listed https_edge site (codes "/blog/x") ≡ some web_route
unfolding select_route route_matches publication_ready_at
select_run = refl

select_route-IsBest_example :
    IsBest (eligible clock https_edge site (codes "/blog/x")) listed web_route
select_route-IsBest_example =
    select_route-IsBest clock https_edge site (codes "/blog/x") listed web_route select_run

only_member : (a : Route) → Memᴰ a listed → a ≡ web_route
only_member a (Memᴰ.head e) = e
only_member a (Memᴰ.tail m) = elim m [ ]

select_route_unique_example :
    select_route clock listed https_edge site (codes "/blog/x") ≡ some web_route
select_route_unique_example =
    select_route_unique clock https_edge site (codes "/blog/x") listed web_route (λ e. cc)
      (λ a b m n s. only_member a m ∙ sym (only_member b n))
      (select_route-IsBest clock https_edge site (codes "/blog/x") listed web_route select_run)

proxied_run :
    serve_http no_digest handler same_case clock https_edge (some listed) request
    ≡ proxied web_route (codes "127.0.0.1:20000") (codes "/x")
unfolding serve_http route_matches publication_ready_at
proxied_run = refl

serve_http-proxied_example :
    IsBest
      (eligible clock https_edge (normalize_host same_case request.host) request.path)
      listed
      web_route
    × (codes "/x" ≡ stripped_path web_route (handler.set_url_path request.path))
    × ((bound : Text) × (bind_of no_digest handler web_route ≡ some bound)
        × (codes "127.0.0.1:20000" ≡ bound ++ codes ":" ++ itoa web_route.remote_port))
serve_http-proxied_example =
    serve_http-proxied no_digest handler same_case clock https_edge listed request web_route
      (codes "127.0.0.1:20000") (codes "/x") proxied_run

serve_if_match-serve_http_example :
    ((o : Outcome)
      → serve_if_match no_digest handler same_case clock https_edge (some listed) request ≡ some o
      → serve_http no_digest handler same_case clock https_edge (some listed) request ≡ o)
    × ((serve_if_match no_digest handler same_case clock https_edge (some listed) request ≡ none)
        ↔ ((routes : List Route) × (some listed ≡ some routes)
            × All
                (λ r.
                  eligible clock https_edge (normalize_host same_case request.host) request.path r
                  ≡ false)
                routes))
serve_if_match-serve_http_example =
    serve_if_match-serve_http no_digest handler same_case clock https_edge (some listed) request
