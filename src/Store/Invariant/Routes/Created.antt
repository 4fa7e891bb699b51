-- ===== src/Store/Invariant/Routes/Created.antt =====
-- A created route is compatible with the rows that were there.
use portloom.Domain.Agent.{Time}
use portloom.Domain.Route.{Route, Validated, invalid, valid, validate}
use portloom.Domain.Route.Laws.{IsValid}
use portloom.Prelude.{
  All, Bool, Bool-cases, List, Option, Text, [], any, ap, arith, false, inl, inr, int_eq,
  int_eq_iff, not, pos, some, subst, sym, text_eq_iff, true, ℕ, ℤ, ◌==◌, ◌||◌, ◌∙◌, ◌∷◌, ◌≡◌, ◌≢◌,
}
use portloom.Store.Db.{
  >>=-eq-ok, Db, Options, guard-eq-ok, insert_route, ok, or_err-eq-ok, same_endpoint, stored,
}
use portloom.Store.Invariant.{Compatible, HasOwner, RouteOk, WellFormed}
use portloom.Store.Invariant.Routes.{not-SameWeb, share_port}
use portloom.Store.Routes.{
  allocate_port, bump_desired_revision, checked, create_route, new_row, public_port_available,
  takes_port,
}

insert_route-inv :
    (row : Route) (db db' : Db)
    → insert_route row db ≡ ok db'
    → (any
          (λ q. q.id == row.id || int_eq q.remote_port row.remote_port || same_endpoint q row)
          db.routes
        ≡ false)
      × (db' ≡ record db { routes = stored row ∷ db.routes })
unfolding insert_route
insert_route-inv row db db' h = (ground arith, ground arith)

-- One row against the new one.
Compatible-new :
    (options : Options) (row q : Route)
    → IsValid row
    → RouteOk options q
    → (q.id == row.id || int_eq q.remote_port row.remote_port || same_endpoint q row) ≡ false
    → (int_eq row.public_port (pos 0) || not (takes_port row [] q)) ≡ true
    → Compatible (stored row) q
Compatible-new options row q v k clear free = record {
  id = λ e. ground (arith, (text_eq_iff q.id row.id).1 (sym e));
  remote_port = λ e. ground (arith, (int_eq_iff q.remote_port row.remote_port).1 (sym e));
  web = λ s. not-SameWeb row q v k.valid (ground arith) (record {
    web = s.web;
    protocol = s.protocol;
    domain = s.domain;
    public_port = s.public_port;
    path_prefix = s.path_prefix;
  });
  port = λ nonzero same.
      share_port row q v k.valid [] (ground arith) (unnamed k.named) (taken nonzero) nonzero same;
}
  where
    unnamed : q.id ≢ [] → (q.id == []) ≡ false
    unnamed ne = elim (Bool-cases (q.id == [])) [
      | inl e ↦ absurd (ne ((text_eq_iff q.id []).0 e))
      | inr e ↦ e
    ]

    taken : row.public_port ≢ pos 0 → takes_port row [] q ≡ false
    taken ne = elim (Bool-cases (int_eq row.public_port (pos 0))) [
      | inl e ↦ absurd (ne ((int_eq_iff row.public_port (pos 0)).0 e))
      | inr e ↦ ground arith
    ]

module _ (options : Options) (row : Route) (v : IsValid row) where
  Compatible-All :
      (l : List Route)
      → All (RouteOk options) l
      → any (λ q. q.id == row.id || int_eq q.remote_port row.remote_port || same_endpoint q row) l
        ≡ false
      → (int_eq row.public_port (pos 0) || not (any (takes_port row []) l)) ≡ true
      → All (Compatible (stored row)) l
  Compatible-All [] h clear free = tt
  Compatible-All (q ∷ l) (k, h) clear free = (
    Compatible-new options row q v k (ground arith) (ground arith),
    Compatible-All l h (ground arith) (ground arith),
  )

  pub insert-WellFormed :
      (db db' : Db)
      → WellFormed options db
      → RouteOk options (stored row)
      → HasOwner db.agents (stored row)
      → public_port_available row [] db ≡ true
      → insert_route row db ≡ ok db'
      → WellFormed options db'
  unfolding public_port_available
  insert-WellFormed db db' w good owner free done =
      let (clear, same) = insert_route-inv row db db' done in
      subst (WellFormed options) (sym same) (record {
        agents_distinct = w.agents_distinct;
        agents_ok = w.agents_ok;
        routes_distinct = (Compatible-All db.routes w.routes_ok clear free, w.routes_distinct);
        routes_ok = (good, w.routes_ok);
        owned = (owner, w.owned);
      })

-- The steps of a successful creation.
pub record Creation (unicode_lower : ℕ → ℕ) (now : Time) (options : Options) (available : ℕ → Bool)
    (random_id : Option Text) (raw : Route) (db : Db) (row : Route) (db' : Db) : Type 0 where
  pub route : Route
  pub revision : ℤ
  pub advanced_db : Db
  pub port : ℕ
  pub new_id : Text
  pub validated : validate unicode_lower raw ≡ valid route
  pub advanced : bump_desired_revision now route.client_id db ≡ some (revision, advanced_db)
  pub allocated : allocate_port options available advanced_db ≡ some port
  pub free : public_port_available route [] advanced_db ≡ true
  pub random : random_id ≡ some new_id
  pub inserted : insert_route (new_row route new_id port revision now) advanced_db ≡ ok db'
  pub result : row ≡ new_row route new_id port revision now

pub checked-eq-ok : (v : Validated) (r : Route) → checked v ≡ ok r → v ≡ valid r
checked-eq-ok (valid x) r h = cc
checked-eq-ok (invalid e) r h = cc

module _ (unicode_lower : ℕ → ℕ) (now : Time) (options : Options) (available : ℕ → Bool)
    (random_id : Option Text) (raw : Route) (db : Db) (row : Route) (db' : Db) where
  pub create_route-Creation :
      create_route unicode_lower now options available random_id raw db ≡ ok (row, db')
      → Creation unicode_lower now options available random_id raw db row db'
  unfolding create_route
  create_route-Creation done =
      let (route, validated, h1) = >>=-eq-ok _ _ done in
      let (bump, advanced, h2) = >>=-eq-ok _ _ h1 in
      let (port, allocated, h3) = >>=-eq-ok _ _ h2 in
      let (free, h4) = guard-eq-ok _ _ _ h3 in
      let (new_id, random, h5) = >>=-eq-ok _ _ h4 in
      let (last, inserted, h6) = >>=-eq-ok _ _ h5 in
      let same_db : last ≡ db' = ground arith in
      record {
        route = route;
        revision = bump.0;
        advanced_db = bump.1;
        port = port;
        new_id = new_id;
        validated = checked-eq-ok _ route validated;
        advanced = or_err-eq-ok _ _ advanced;
        allocated = or_err-eq-ok _ _ allocated;
        free = free;
        random = or_err-eq-ok _ _ random;
        inserted = inserted ∙ ap ok same_db;
        result = ground arith;
      }
