-- ===== src/Api/Refinement/Reached.antt =====
-- The databases that the requests to the control plane lead to.
-- The databases of a server that started with an empty store and was sent requests. The clock, the
-- random source and the operating system may change from one to the next; identifiers from the random
-- source are not empty.
use portloom.Api.{Call, State}
use portloom.Api.Config.{Config, Env}
use portloom.Api.Serve.{serve}
use portloom.Prelude.{Text, [], some, ℕ, ◌≡◌, ◌≢◌}
use portloom.Store.Db.{Db, Options, empty_db}
use portloom.Store.Invariant.Reach.{Reach}

pub data Requested {S : Type 0} (hash_token : Text → Text) (unicode_lower : ℕ → ℕ) (config : Config)
    (options : Options) : State S → Type 0 where
  began_empty :
      {s : State S} → s.db ≡ empty_db → Requested hash_token unicode_lower config options s
  requested :
      {s s' : State S} (env : Env) (authorization : Text) (call : Call S)
      → env.hash_token ≡ hash_token
      → env.unicode_lower ≡ unicode_lower
      → env.random_id ≢ some []
      → (serve env config options authorization call s).1 ≡ s'
      → Requested hash_token unicode_lower config options s
      → Requested hash_token unicode_lower config options s'
