-- ===== src/Api/Refinement/Routes.antt =====
-- The handlers of routes and of deletions refine the steps of the store.
use portloom.Api.{State}
use portloom.Api.Agents.{handle_delete_token}
use portloom.Api.Config.{Config, Env, deleted}
use portloom.Api.Refinement.{Stands, Takes, stays, steps}
use portloom.Api.Routes.{
  handle_create_route, handle_delete_route, handle_update_route, refuse_route, saved,
}
use portloom.Domain.Route.{Route}
use portloom.Prelude.{Option, Text, [], none, refl, some, ℕ, ◌≡◌, ◌≢◌}
use portloom.Store.Db.{Db, Options, Result, err, ok}
use portloom.Store.Enrollment.{delete_enrollment_token}
use portloom.Store.Invariant.Reach.{create, delete, drop_token, update}
use portloom.Store.Routes.{create_route, delete_route, update_route}

module _ {S : Type 0} (env : Env) (config : Config) (options : Options) (s : State S) where
  saved-Refines :
      (status : ℕ) (code : Option Text) (result : Result (Route × Db))
      → ((route : Route) (db' : Db) → result ≡ ok (route, db') → Takes env options s db')
      → Stands env options s (saved env config options status code result s)
  unfolding saved
  saved-Refines status (some code) result step = stays refl
  saved-Refines status none (err e) step = stays refl
  saved-Refines status none (ok (route, db')) step = steps (step route db' refl)

  deleted-Refines :
      (result : Result Db)
      → ((db' : Db) → result ≡ ok db' → Takes env options s db')
      → Stands env options s (deleted s result)
  unfolding deleted
  deleted-Refines (err e) step = stays refl
  deleted-Refines (ok db') step = steps (step db' refl)

  pub handle_create_route-Refines :
      (body : Option Route)
      → env.random_id ≢ some []
      → Stands env options s (handle_create_route env config options body s)
  unfolding handle_create_route
  handle_create_route-Refines none named = stays refl
  handle_create_route-Refines (some route) named =
      saved-Refines 201 (refuse_route env config route)
        (create_route env.unicode_lower env.now options env.available env.random_id route s.db)
        (λ row db' done. create env.now env.available env.random_id route row named done)

  pub handle_update_route-Refines :
      (id : Text) (body : Option Route)
      → Stands env options s (handle_update_route env config options id body s)
  unfolding handle_update_route
  handle_update_route-Refines id none = stays refl
  handle_update_route-Refines id (some route) =
      saved-Refines 200 (refuse_route env config route)
        (update_route env.unicode_lower env.now id route s.db)
        (λ row db' done. update env.now id route row done)

  pub handle_delete_route-Refines :
      (id : Text) → Stands env options s (handle_delete_route env config options id s)
  unfolding handle_delete_route
  handle_delete_route-Refines id =
      deleted-Refines (delete_route env.now id s.db) (λ db' done. delete env.now id done)

  pub handle_delete_token-Refines :
      (id : Text) → Stands env options s (handle_delete_token env config id s)
  unfolding handle_delete_token
  handle_delete_token-Refines id =
      deleted-Refines (delete_enrollment_token id s.db) (λ db' done. drop_token id done)
