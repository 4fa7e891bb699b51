-- ===== src/Edge/Management/Kept.antt =====
-- The routes of the store stay off the paths of the console, whatever is asked of the API.
use portloom.Api.Config.{Config}
use portloom.Api.Routes.{route_uses_reserved_domain}
use portloom.Domain.Agent.{RouteObservation, Time}
use portloom.Domain.Route.{Route}
use portloom.Edge.Management.{IsUnreserved}
use portloom.Edge.Management.Stored.{
  IsUnreserved-same, IsUnreserved-valid, bump-routes, insert_route-routes,
}
use portloom.Prelude.{
  All, Bool, List, Option, Text, [], ap, arith, false, keep, not, refl, subst, sym, ℕ, ℤ, ◌==◌, ◌∷◌,
  ◌≡◌,
}
use portloom.Store.Db.{
  >>=-eq-ok, Db, Options, failed, ok, or_err, or_err-eq-ok, stored, update_where, ◌>>=◌,
}
use portloom.Store.Heartbeat.{heartbeat, is_target, observe_routes, observed_row}
use portloom.Store.Invariant.Heartbeat.{heartbeat-Accepted}
use portloom.Store.Invariant.Routes.Created.{create_route-Creation}
use portloom.Store.Invariant.Routes.Update.{update_route-Change}
use portloom.Store.Routes.{
  bump_desired_revision, create_route, delete_route, get_route, kept, new_row, update_route,
  write_route, written,
}
use portloom.Store.Rows.{All-keep, All-update_where}
use portloom.Strings.Laws.{IsLowerTable}

write_route-routes :
    (unicode_lower : ℕ → ℕ) (now : Time) (id : Text) (updated : Route) (db db' : Db)
    → write_route unicode_lower now id updated db ≡ ok db'
    → db'.routes ≡ update_where (λ q. q.id == id) (written unicode_lower now updated) db.routes
unfolding write_route
write_route-routes unicode_lower now id updated db db' e = ground arith

module _ (unicode_lower : ℕ → ℕ) (table : IsLowerTable unicode_lower) (config : Config) where
  abbrev pub AllUnreserved : Db → Type 0
  AllUnreserved db = All (IsUnreserved unicode_lower config) db.routes

  pub create_route-AllUnreserved :
      (now : Time) (options : Options) (available : ℕ → Bool) (random_id : Option Text)
      (raw : Route) (db : Db) (row : Route) (db' : Db)
      → create_route unicode_lower now options available random_id raw db ≡ ok (row, db')
      → route_uses_reserved_domain unicode_lower config raw ≡ false
      → AllUnreserved db
      → AllUnreserved db'
  create_route-AllUnreserved now options available random_id raw db row db' done h held =
      let c =
        create_route-Creation unicode_lower now options available random_id raw db row db' done in
      let u = IsUnreserved-valid unicode_lower config raw c.route table c.validated h in
      let new = new_row c.route c.new_id c.port c.revision now in
      subst (All (IsUnreserved unicode_lower config))
        (sym (insert_route-routes new c.advanced_db db' c.inserted))
        (
          IsUnreserved-same unicode_lower config c.route (stored new) refl refl refl refl u,
          subst (All (IsUnreserved unicode_lower config))
              (sym (bump-routes now c.route.client_id db (c.revision, c.advanced_db) c.advanced))
              held,
        )

  pub update_route-AllUnreserved :
      (now : Time) (id : Text) (raw : Route) (db : Db) (updated : Route) (db' : Db)
      → update_route unicode_lower now id raw db ≡ ok (updated, db')
      → route_uses_reserved_domain unicode_lower config raw ≡ false
      → AllUnreserved db
      → AllUnreserved db'
  unfolding route_uses_reserved_domain
  update_route-AllUnreserved now id raw db updated db' done h held =
      let c = update_route-Change unicode_lower now id raw db updated db' done in
      let u =
        IsUnreserved-valid unicode_lower config (kept unicode_lower now c.current raw) c.route table
          c.validated h in
      let write = write_route-routes unicode_lower now id updated c.advanced_db db' c.saved in
      let same = bump-routes now c.current.client_id db (c.revision, c.advanced_db) c.advanced in
      let written_ok = λ (r : Route).
        IsUnreserved-same unicode_lower config c.route (written unicode_lower now updated r)
          (sym (ap (λ (q : Route). q.protocol) c.result))
          (sym (ap (λ (q : Route). q.domain) c.result))
          (sym (ap (λ (q : Route). q.path_prefix) c.result))
          (sym (ap (λ (q : Route). q.public_port) c.result)) u in
      subst (All (IsUnreserved unicode_lower config)) (sym write) (
        All-update_where (λ q. q.id == id) (written unicode_lower now updated) c.advanced_db.routes
          (λ r e k. written_ok r) (λ r e k. k)
          (subst (All (IsUnreserved unicode_lower config)) (sym same) held))

  observe_routes-AllUnreserved :
      (id : Text) (now : Time) (os : List RouteObservation) (l : List Route)
      → All (IsUnreserved unicode_lower config) l
      → All (IsUnreserved unicode_lower config) (observe_routes id now os l)
  unfolding observe_routes
  observe_routes-AllUnreserved id now [] l held = held
  observe_routes-AllUnreserved id now (o ∷ os) l held =
      observe_routes-AllUnreserved id now os (update_where (is_target id o) (observed_row o now) l)
        (All-update_where (is_target id o) (observed_row o now) l
          (λ r e u.
            IsUnreserved-same unicode_lower config r (observed_row o now r) refl refl refl refl u)
          (λ r e u. u) held)

  pub heartbeat-AllUnreserved :
      (now : Time) (id : Text) (observed : ℤ) (os : List RouteObservation) (db db' : Db)
      → heartbeat now id observed os db ≡ ok db'
      → AllUnreserved db
      → AllUnreserved db'
  heartbeat-AllUnreserved now id observed os db db' done held =
      subst AllUnreserved (sym (heartbeat-Accepted now id observed os db db' done).result)
        (observe_routes-AllUnreserved id now os db.routes held)

  pub delete_route-AllUnreserved :
      (now : Time) (id : Text) (db db' : Db)
      → delete_route now id db ≡ ok db'
      → AllUnreserved db
      → AllUnreserved db'
  unfolding delete_route
  delete_route-AllUnreserved now id db db' done held =
      let rest : Db = record db { routes = keep (λ r. not (r.id == id)) db.routes } in
      let next = λ (r : Route). or_err (bump_desired_revision now r.client_id rest) failed in
      let tail = λ (r : Route). next r >>= λ q. ok q.1 in
      let (current, read, h1) = >>=-eq-ok (get_route id db) tail done in
      let (bump, advanced, h2) = >>=-eq-ok (next current) (λ q. ok q.1) h1 in
      let same : bump.1.routes ≡ rest.routes =
        bump-routes now current.client_id rest bump (or_err-eq-ok _ _ advanced) in
      let same_db : bump.1 ≡ db' = ground arith in
      subst AllUnreserved same_db (
        subst (All (IsUnreserved unicode_lower config)) (sym same)
          (All-keep (IsUnreserved unicode_lower config) (λ r. not (r.id == id)) db.routes held))
