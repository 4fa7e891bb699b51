-- ===== src/Gateway/Unique.antt =====
-- With one route to an endpoint, as the store's index keeps it, the selection does not depend on
-- the order of the routes.
use mathlib.Core.List.{Memᴰ, append-nil}
use portloom.Domain.Agent.{Time}
use portloom.Domain.Route.{
  Protocol, Route, http, https, is_web, matches_path, other, protocol_text, tcp, udp,
}
use portloom.Domain.Route.Laws.{matches_path_iff}
use portloom.Gateway.{Edge, eligible, route_matches, select_route}
use portloom.Gateway.Selection.{Bounds, IsBest, none_of, select_route-IsBest, select_route-none_iff}
use portloom.Prelude.{
  Bool, List, Option-cases, Text, [], and-eq-true, ap, arith, eq_of_parts, if◌then◌else◌, inl, inr,
  pos, refl, some, sym, text_eq_iff, true, ℕ, ◌++◌, ◌∙◌, ◌∷◌, ◌≡◌, ◌≢◌, ◌≤◌,
}
use portloom.Strings.{len}
use portloom.Strings.Laws.{same_prefix}

-- The columns of the store's index on web endpoints.
pub record SameEndpoint (a b : Route) : Type 0 where
  pub protocol : a.protocol ≡ b.protocol
  pub domain : a.domain ≡ b.domain
  pub public_port : a.public_port ≡ b.public_port
  pub path_prefix : a.path_prefix ≡ b.path_prefix

-- What a match on a listener with a scheme says of the route.
pub record Matched (edge : Edge) (host path : Text) (r : Route) : Type 0 where
  pub web : is_web r.protocol ≡ true
  pub domain : r.domain ≡ host
  pub scheme : edge.scheme ≡ protocol_text r.protocol
  pub port : r.public_port ≡ (if edge.is_default then pos 0 else edge.port)
  pub covered : matches_path r path ≡ true

module _ (edge : Edge) (host path : Text) (scheme : edge.scheme ≢ []) where
  pub route_matches-Matched :
      (r : Route) → route_matches r edge host path ≡ true → Matched edge host path r
  unfolding route_matches
  route_matches-Matched r h =
      let no_scheme = text_eq_iff edge.scheme [] in
      let same_scheme = text_eq_iff edge.scheme (protocol_text r.protocol) in
      let same_host = text_eq_iff r.domain host in
      record {
        web = ground arith;
        domain = ground (arith, same_host);
        scheme = ground (arith, no_scheme, same_scheme);
        port = ground (
          arith,
          no_scheme,
          same_scheme,
          eq_of_parts r.public_port (pos 0),
          eq_of_parts edge.port r.public_port,
        );
        covered = ground arith;
      }

web_protocol :
    (p q : Protocol) → is_web p ≡ true → is_web q ≡ true → protocol_text p ≡ protocol_text q → p ≡ q
unfolding protocol_text
web_protocol http http h k e = refl
web_protocol https https h k e = refl
web_protocol http https h k e = cc
web_protocol https http h k e = cc
web_protocol http tcp h k e = cc
web_protocol http udp h k e = cc
web_protocol http (other s) h k e = cc
web_protocol https tcp h k e = cc
web_protocol https udp h k e = cc
web_protocol https (other s) h k e = cc
web_protocol tcp q h k e = cc
web_protocol udp q h k e = cc
web_protocol (other s) q h k e = cc

-- A covered path begins with the prefix.
covered_prefix :
    (r : Route) (path : Text)
    → matches_path r path ≡ true
    → (rest : Text) × (path ≡ r.path_prefix ++ rest)
covered_prefix r path h = elim ((matches_path_iff r path).0 h) [
  | inl e ↦ (path, rw e)
  | inr (inl e) ↦ ([], e ∙ sym (append-nil r.path_prefix))
  | inr (inr (rest, e)) ↦ (b'/' ∷ rest, e)
]

module _ (edge : Edge) (host path : Text) (a b : Route) (m : Matched edge host path a)
    (n : Matched edge host path b) (same_len : len a.path_prefix ≡ len b.path_prefix) where
  same_endpoint : SameEndpoint a b
  same_endpoint =
      let (rest, p) = covered_prefix a path m.covered in
      let (more, q) = covered_prefix b path n.covered in
      record {
        protocol = web_protocol a.protocol b.protocol m.web n.web (sym m.scheme ∙ n.scheme);
        domain = m.domain ∙ sym n.domain;
        public_port = m.port ∙ sym n.port;
        path_prefix = same_prefix a.path_prefix b.path_prefix rest more (sym p ∙ q) same_len;
      }

bound_of :
    (p : Route → Bool) (n : ℕ) {r : Route} (l : List Route)
    → Bounds p l n
    → Memᴰ r l
    → p r ≡ true
    → len r.path_prefix ≤ n
bound_of p n [] h m k = elim m [ ]
bound_of p n (q ∷ l) (h, hs) (Memᴰ.head e) k = rw e (h (rw (← e) k))
bound_of p n (q ∷ l) (h, hs) (Memᴰ.tail m) k = bound_of p n l hs m k

-- On a listener with a scheme, if no two listed routes have the same endpoint, any listed, ready
-- and matching route with a longest prefix is the one that is selected.
pub select_route_unique :
    (now : Time) (edge : Edge) (host path : Text) (routes : List Route) (best : Route)
    → edge.scheme ≢ []
    → ((a b : Route) → Memᴰ a routes → Memᴰ b routes → SameEndpoint a b → a ≡ b)
    → IsBest (eligible now edge host path) routes best
    → select_route now routes edge host path ≡ some best
select_route_unique now edge host path routes best scheme distinct is_best =
    elim (Option-cases (select_route now routes edge host path)) [
      | inl e ↦ absurd (
          none_of (eligible now edge host path) routes
            ((select_route-none_iff now edge host path routes).0 e) is_best.listed is_best.chosen)
      | inr (a, e) ↦
          let best_a = select_route-IsBest now edge host path routes a e in
          let ok = eligible now edge host path in
          let le =
            bound_of ok (len a.path_prefix) routes best_a.longest is_best.listed is_best.chosen in
          let ge =
            bound_of ok (len best.path_prefix) routes is_best.longest best_a.listed best_a.chosen in
          let m = route_matches-Matched edge host path scheme a (matches a best_a.chosen) in
          let n = route_matches-Matched edge host path scheme best (matches best is_best.chosen) in
          let same =
            distinct a best best_a.listed is_best.listed
              (same_endpoint edge host path a best m n (omega arith)) in
          e ∙ ap some same
    ]
  where
    matches :
        (r : Route) → eligible now edge host path r ≡ true → route_matches r edge host path ≡ true
    matches r h = (and-eq-true (route_matches r edge host path) _ h).0
