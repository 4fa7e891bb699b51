-- ===== src/Api/Refinement.antt =====
-- What the requests to the control plane do to the database.
pub mod Routes
pub mod Agents
pub mod Serve
pub mod Reached
use portloom.Api.{Response, State}
use portloom.Api.Config.{Env}
use portloom.Prelude.{Text, ℕ, ◌≡◌}
use portloom.Store.Db.{Db, Options}
use portloom.Store.Invariant.Reach.{Step}

pub data IsStep (hash_token : Text → Text) (unicode_lower : ℕ → ℕ) (options : Options) (db db' : Db)
    : Type 0 where
  -- The database stays, or takes one step of the store.
  stays : db' ≡ db → IsStep hash_token unicode_lower options db db'
  steps :
      Step hash_token unicode_lower options db db' → IsStep hash_token unicode_lower options db db'

abbrev pub Refines : Env → Options → Db → Db → Type 0
Refines env options db db' = IsStep env.hash_token env.unicode_lower options db db'

-- The database after a request stands where it stays or takes one step of the store.
module _ {S : Type 0} (env : Env) (options : Options) (s : State S) where
  abbrev pub Takes : Db → Type 0
  Takes db' = Step env.hash_token env.unicode_lower options s.db db'

  abbrev pub Stands : Response S × State S → Type 0
  Stands result = Refines env options s.db result.1.db
