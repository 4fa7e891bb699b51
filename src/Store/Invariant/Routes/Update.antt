-- ===== src/Store/Invariant/Routes/Update.antt =====
-- A successful UpdateRoute keeps the invariant, and what it returns.
use portloom.Domain.Agent.{Time}
use portloom.Domain.Route.{Route, valid, validate}
use portloom.Domain.Route.Laws.{IsValid, validate-IsValid}
use portloom.Prelude.{
  List, Text, any, ap, arith, false, find, not, refl, some, subst, sym, text_eq_iff, true, ℕ, ℤ,
  ◌&&◌, ◌==◌, ◌∙◌, ◌≡◌, ◌≤ℤ◌,
}
use portloom.Store.Db.{
  >>=-eq-ok, AgentRow, Db, Options, agent_with_id, guard-eq-ok, ok, or_err-eq-ok, same_endpoint,
  update_where,
}
use portloom.Store.Invariant.{Compatible, HasOwner, RouteOk, WellFormed}
use portloom.Store.Invariant.Agents.{bump-WellFormed}
use portloom.Store.Invariant.Routes.Create.{IsValid-same}
use portloom.Store.Invariant.Routes.Created.{checked-eq-ok}
use portloom.Store.Invariant.Routes.Updated.{write-Pairwise}
use portloom.Store.Routes.{
  bump_desired_revision, bumped, get_route, kept, public_port_available, route_with_id, scan_route,
  update_route, write_route, written,
}
use portloom.Store.Rows.{All-both, All-update_where, find_unique}
use portloom.Strings.Laws.{IsLowerTable}

-- The steps of a successful update.
pub record Change (unicode_lower : ℕ → ℕ) (now : Time) (id : Text) (raw : Route) (db : Db)
    (update : Route) (db' : Db) : Type 0 where
  pub current : Route
  pub route : Route
  pub revision : ℤ
  pub advanced_db : Db
  pub read : get_route id db ≡ ok current
  pub validated : validate unicode_lower (kept unicode_lower now current raw) ≡ valid route
  pub advanced : bump_desired_revision now current.client_id db ≡ some (revision, advanced_db)
  pub result : update ≡ record route { desired_revision = revision; updated_at = now }
  pub free : public_port_available update id advanced_db ≡ true
  pub saved : write_route unicode_lower now id update advanced_db ≡ ok db'

module _ (unicode_lower : ℕ → ℕ) (now : Time) (id : Text) (raw : Route) (db : Db) (update : Route)
    (db' : Db) where
  pub update_route-Change :
      update_route unicode_lower now id raw db ≡ ok (update, db')
      → Change unicode_lower now id raw db update db'
  unfolding update_route
  update_route-Change done =
      let (current, read, h1) = >>=-eq-ok _ _ done in
      let (route, validated, h2) = >>=-eq-ok _ _ h1 in
      let (bump, advanced, h3) = >>=-eq-ok {A = ℤ × Db} _ _ h2 in
      let u : Route = record route { desired_revision = bump.0; updated_at = now } in
      let (free, h4) = guard-eq-ok (public_port_available u id bump.1) _ _ h3 in
      let (last, saved, h5) = >>=-eq-ok (write_route unicode_lower now id u bump.1) _ h4 in
      let same : u ≡ update = ground arith in
      let same_db : last ≡ db' = ground arith in
      record {
        current = current;
        route = route;
        revision = bump.0;
        advanced_db = bump.1;
        read = read;
        validated = checked-eq-ok _ route validated;
        advanced = or_err-eq-ok _ _ advanced;
        result = sym same;
        free = subst (λ x. public_port_available x id bump.1 ≡ true) same free;
        saved =
            subst (λ x. write_route unicode_lower now id x bump.1 ≡ ok db') same
              (saved ∙ ap ok same_db);
      }

pub get_route-inv :
    (id : Text) (db : Db) (current : Route)
    → get_route id db ≡ ok current
    → (row : Route) × (route_with_id id db ≡ some row) × (current ≡ scan_route db row)
unfolding get_route
get_route-inv id db current h =
    let (row, found, last) = >>=-eq-ok _ _ h in (row, or_err-eq-ok _ _ found, ground arith)

write_route-inv :
    (unicode_lower : ℕ → ℕ) (now : Time) (id : Text) (update : Route) (db db' : Db)
    → write_route unicode_lower now id update db ≡ ok db'
    → (any (λ q. not (q.id == id) && same_endpoint q update) db.routes ≡ false)
      × (db' ≡ record db {
        routes = update_where (λ q. q.id == id) (written unicode_lower now update) db.routes;
      })
unfolding write_route
write_route-inv unicode_lower now id update db db' h = (ground arith, ground arith)

one_id : (id : Text) (x y : Route) → Compatible x y → (x.id == id) ≡ true → (y.id == id) ≡ true → ⊥
one_id id x y c px py = c.id ((text_eq_iff x.id id).0 px ∙ sym ((text_eq_iff y.id id).0 py))

-- The row with the identifier has the owner that was bumped.
HasOwner-written :
    (unicode_lower : ℕ → ℕ) (now : Time) (agents : List AgentRow) (a : AgentRow) (update q : Route)
    → agent_with_id q.client_id agents ≡ some a
    → update.desired_revision ≡ a.desired_revision
    → HasOwner agents q
    → HasOwner agents (written unicode_lower now update q)
HasOwner-written unicode_lower now agents a update q found same h =
    let one : h.agent ≡ a = cc h.found in
    record {
      agent = a;
      found = found;
      desired = rw same (omega arith);
      observed = subst (λ (b : AgentRow). q.observed_revision ≤ℤ b.desired_revision) one h.observed;
    }

module _ (unicode_lower : ℕ → ℕ) (table : IsLowerTable unicode_lower) (now : Time)
    (options : Options) (id : Text) (raw : Route) (db : Db) (update : Route) (db' : Db)
    (w : WellFormed options db) (c : Change unicode_lower now id raw db update db') where
  update-IsValid : IsValid update
  update-IsValid = subst IsValid (sym c.result) (
      IsValid-same c.route (record c.route { desired_revision = c.revision; updated_at = now })
        (record {
          name = refl;
          protocol = refl;
          domain = refl;
          path_prefix = refl;
          strip_path = refl;
          local_host = refl;
          local_port = refl;
          public_port = refl;
          tunnel_group = refl;
        })
        (validate-IsValid unicode_lower table (kept unicode_lower now c.current raw) c.route
          c.validated))

  RouteOk-written :
      (q : Route) → RouteOk options q → RouteOk options (written unicode_lower now update q)
  RouteOk-written q k = record {
    named = k.named;
    valid =
        IsValid-same update (written unicode_lower now update q)
          (record {
            name = refl;
            protocol = refl;
            domain = refl;
            path_prefix = refl;
            strip_path = refl;
            local_host = refl;
            local_port = refl;
            public_port = refl;
            tunnel_group = refl;
          })
          update-IsValid;
    in_range = k.in_range;
  }

  pub Change-WellFormed : WellFormed options db'
  unfolding public_port_available scan_route route_with_id
  Change-WellFormed =
      let (wb, same_routes, same_tokens, (a, found, next, found')) =
        bump-WellFormed options now c.current.client_id db c.advanced_db c.revision w c.advanced in
      let (clear, same_db) =
        write_route-inv unicode_lower now id update c.advanced_db db' c.saved in
      let (row, read, scanned) = get_route-inv id db c.current c.read in
      let rows = c.advanced_db.routes in
      let there : find (λ (q : Route). q.id == id) rows ≡ some row = rw same_routes read in
      let only =
        find_unique Compatible (λ q. q.id == id) (one_id id) rows wb.routes_distinct there in
      let client : c.current.client_id ≡ row.client_id = ap (λ (q : Route). q.client_id) scanned in
      let revised : update.desired_revision ≡ (bumped now a).desired_revision =
        ap (λ (q : Route). q.desired_revision) c.result ∙ next in
      subst (WellFormed options) (sym same_db) (record {
        agents_distinct = wb.agents_distinct;
        agents_ok = wb.agents_ok;
        routes_distinct =
            write-Pairwise unicode_lower now options id update update-IsValid rows wb.routes_ok
              clear c.free wb.routes_distinct;
        routes_ok =
            All-update_where (λ q. q.id == id) (written unicode_lower now update) rows
              (λ q e k. RouteOk-written q k) (λ q e k. k) wb.routes_ok;
        owned =
            All-update_where (λ q. q.id == id) (written unicode_lower now update) rows
              (λ q e k.
                HasOwner-written unicode_lower now c.advanced_db.agents (bumped now a) update q
                  (rw (k.1 e, ← client) found') revised k.0)
              (λ q e k. k.0)
              (All-both (HasOwner c.advanced_db.agents) (λ q. (q.id == id) ≡ true → q ≡ row) rows
                wb.owned only);
      })
