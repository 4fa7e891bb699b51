-- ===== src/Store/Invariant/Agents.antt =====
-- Statements on the table of agents keep the invariant.
use portloom.Domain.Agent.{Time}
use portloom.Domain.Route.{Route}
use portloom.Prelude.{
  All, All-imp, Bool, Bool-cases, List, Option-cases, Pairwise, Text, [], ap, arith, inl, inr,
  int_laws, pos, refl, some, subst, sym, ℤ, ◌+ℤ◌, ◌==◌, ◌∙◌, ◌∷◌, ◌≡◌, ◌≤ℤ◌,
}
use portloom.Store.Db.{AgentRow, Db, Options, agent_with_id, update_where}
use portloom.Store.Invariant.{AgentOk, DistinctAgents, HasOwner, WellFormed}
use portloom.Store.Routes.{bump_desired_revision, bumped}
use portloom.Store.Rows.{
  All-update_where, Pairwise-update_where, changed, find-update_where, find_sound,
}

-- A change that keeps identifiers and hashes and moves the desired revision up only.
pub record IsAdvance (a b : AgentRow) : Type 0 where
  pub id : a.id ≡ b.id
  pub token_hash : a.token_hash ≡ b.token_hash
  pub desired : a.desired_revision ≤ℤ b.desired_revision

module _ (p : AgentRow → Bool) (f : AgentRow → AgentRow)
    (advance : (a : AgentRow) → IsAdvance a (f a)) where
  changed-IsAdvance : (a : AgentRow) → IsAdvance a (changed p f a)
  changed-IsAdvance a = elim (Bool-cases (p a)) [
    | inl e ↦ rw e (advance a)
    | inr e ↦ rw e (record { id = refl; token_hash = refl; desired = omega arith })
  ]

  step_distinct :
      (a b : AgentRow)
      → Unit {0}
      → Unit {0}
      → DistinctAgents a b
      → DistinctAgents (changed p f a) (changed p f b)
  step_distinct a b _ _ (i, t) =
      let x = changed-IsAdvance a in
      let y = changed-IsAdvance b in
      (λ e. i (x.id ∙ e ∙ sym y.id), λ e. t (x.token_hash ∙ e ∙ sym y.token_hash))

  units : (l : List AgentRow) → All (λ a. Unit {0}) l
  units [] = tt
  units (a ∷ l) = (tt, units l)

  pub update-distinct :
      (l : List AgentRow) → Pairwise DistinctAgents l → Pairwise DistinctAgents (update_where p f l)
  update-distinct l h =
      Pairwise-update_where (λ a. Unit {0}) DistinctAgents DistinctAgents p f step_distinct l
        (units l) h

  pub agent_with_id-update :
      (id : Text) (l : List AgentRow) (a : AgentRow)
      → agent_with_id id l ≡ some a
      → agent_with_id id (update_where p f l) ≡ some (changed p f a)
  agent_with_id-update id l a h =
      find-update_where (λ b. b.id == id) p f l (λ b. ap (λ i. i == id) (sym (advance b).id)) ∙ rw h

  update-HasOwner : (l : List AgentRow) (r : Route) → HasOwner l r → HasOwner (update_where p f l) r
  update-HasOwner l r h =
      let x = changed-IsAdvance h.agent in
      record {
        agent = changed p f h.agent;
        found = agent_with_id-update r.client_id l h.agent h.found;
        desired = omega (arith, h.desired, x.desired);
        observed = omega (arith, h.observed, x.desired);
      }

  -- An advance of agents keeps the invariant of the whole database.
  pub update-WellFormed :
      (options : Options) (db : Db)
      → WellFormed options db
      → All AgentOk (update_where p f db.agents)
      → WellFormed options (record db { agents = update_where p f db.agents })
  update-WellFormed options db w oks = record {
    agents_distinct = update-distinct db.agents w.agents_distinct;
    agents_ok = oks;
    routes_distinct = w.routes_distinct;
    routes_ok = w.routes_ok;
    owned = All-imp db.routes (update-HasOwner db.agents) w.owned;
  }

bumped-IsAdvance : (now : Time) (a : AgentRow) → IsAdvance a (bumped now a)
bumped-IsAdvance now a = record { id = refl; token_hash = refl; desired = omega int_laws }

bumped-AgentOk : (now : Time) (a : AgentRow) → AgentOk a → AgentOk (bumped now a)
bumped-AgentOk now a h = record { nonneg = h.nonneg; asked = omega (int_laws, h.asked) }

abbrev bumped_db : Time → Text → Db → Db
bumped_db now id db = record db { agents = update_where (λ b. b.id == id) (bumped now) db.agents }

bump-inv :
    (now : Time) (id : Text) (db db' : Db) (revision : ℤ)
    → bump_desired_revision now id db ≡ some (revision, db')
    → (a : AgentRow) × (agent_with_id id db.agents ≡ some a)
      × (revision ≡ a.desired_revision +ℤ pos 1)
      × (db' ≡ bumped_db now id db)
unfolding bump_desired_revision
bump-inv now id db db' revision h = elim (Option-cases (agent_with_id id db.agents)) [
  | inl e ↦ absurd (ground arith)
  | inr (a, e) ↦ (a, e, ground arith, ground arith)
]

-- A bumped revision is one more than the owner's, and the database stays well-formed.
pub bump-WellFormed :
    (options : Options) (now : Time) (id : Text) (db db' : Db) (revision : ℤ)
    → WellFormed options db
    → bump_desired_revision now id db ≡ some (revision, db')
    → WellFormed options db'
      × (db'.routes ≡ db.routes)
      × (db'.tokens ≡ db.tokens)
      × ((a : AgentRow) × (agent_with_id id db.agents ≡ some a)
          × (revision ≡ a.desired_revision +ℤ pos 1)
          × (agent_with_id id db'.agents ≡ some (bumped now a)))
bump-WellFormed options now id db db' revision w h =
    let (a, found, next, same) = bump-inv now id db db' revision h in
    let p = λ (b : AgentRow). b.id == id in
    let advance = bumped-IsAdvance now in
    let found' = agent_with_id-update p (bumped now) advance id db.agents a found in
    (
      subst (WellFormed options) (sym same) (
          update-WellFormed p (bumped now) advance options db w (
            All-update_where p (bumped now) db.agents (λ b e k. bumped-AgentOk now b k) (λ b e k. k)
              w.agents_ok)),
      ap (λ (d : Db). d.routes) same,
      ap (λ (d : Db). d.tokens) same,
      (
        a,
        found,
        next,
        ap (λ (d : Db). agent_with_id id d.agents) same
            ∙ found'
            ∙ rw (find_sound p db.agents found),
      ),
    )
