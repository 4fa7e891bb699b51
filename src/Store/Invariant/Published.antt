-- ===== src/Store/Invariant/Published.antt =====
-- When a created route may be published, internal/store/routes.go's CreateRoute.
use portloom.Domain.Agent.{Time}
use portloom.Domain.Route.{Route, publication_ready_at}
use portloom.Domain.Route.Kept.{validate-observed}
use portloom.Prelude.{
  +ℤ_parts, Bool, Option, Text, [], ap, arith, false, ltb_ℤ, pos, some, subst, sym, true, ℕ, ℤ,
  ◌+ℤ◌, ◌==◌, ◌∙◌, ◌≡◌, ◌≤ℤ◌,
}
use portloom.Store.Db.{AgentRow, Db, Options, agent_with_id, ok}
use portloom.Store.Invariant.{HasOwner, WellFormed}
use portloom.Store.Invariant.Agents.{bump-WellFormed}
use portloom.Store.Invariant.Routes.Created.{create_route-Creation}
use portloom.Store.Invariant.Routes.Update.{get_route-inv, update_route-Change}
use portloom.Store.Routes.{create_route, kept, route_with_id, scan_route, update_route}
use portloom.Store.Rows.{All-find}

-- A route that CreateRoute returns is not published at any time: its agent has to report it first.
pub create_route-unpublished :
    (unicode_lower : ℕ → ℕ) (now : Time) (options : Options) (available : ℕ → Bool)
    (random_id : Option Text) (raw : Route) (db : Db) (row : Route) (db' : Db) (at : Time)
    → create_route unicode_lower now options available random_id raw db ≡ ok (row, db')
    → publication_ready_at row at ≡ false
unfolding publication_ready_at
create_route-unpublished unicode_lower now options available random_id raw db row db' at done =
    let c =
      create_route-Creation unicode_lower now options available random_id raw db row db' done in
    let closed : row.tunnel_status ≡ [] = ap (λ (r : Route). r.tunnel_status) c.result in
    ground arith

behind : (i j : ℤ) → i ≤ℤ j → ltb_ℤ i (j +ℤ pos 1) ≡ true
behind i j le = ground (arith, +ℤ_parts j (pos 1))

not_ready :
    (r : Route) (at : Time)
    → ltb_ℤ r.observed_revision r.desired_revision ≡ true
    → publication_ready_at r at ≡ false
unfolding publication_ready_at
not_ready r at behind = ground arith

-- A route that UpdateRoute returns, on a well formed database, is not published at any time: its
-- revision is above every one that its agent was asked for before, and so is not observed yet.
pub update_route-unpublished :
    (unicode_lower : ℕ → ℕ) (now : Time) (options : Options) (id : Text) (raw : Route) (db : Db)
    (update : Route) (db' : Db) (at : Time)
    → WellFormed options db
    → update_route unicode_lower now id raw db ≡ ok (update, db')
    → publication_ready_at update at ≡ false
unfolding scan_route route_with_id
update_route-unpublished unicode_lower now options id raw db update db' at w done =
    let c = update_route-Change unicode_lower now id raw db update db' done in
    let (wb, same_routes, same_tokens, (a, found, next, found')) =
      bump-WellFormed options now c.current.client_id db c.advanced_db c.revision w c.advanced in
    let (row, read, scanned) = get_route-inv id db c.current c.read in
    let h = All-find (HasOwner db.agents) (λ q. q.id == id) db.routes w.owned read in
    let client : c.current.client_id ≡ row.client_id = ap (λ (q : Route). q.client_id) scanned in
    let here = subst (λ i. agent_with_id i db.agents ≡ some h.agent) (sym client) h.found in
    let owner : h.agent ≡ a = cc in
    let low : row.observed_revision ≤ℤ a.desired_revision =
      subst (λ (b : AgentRow). row.observed_revision ≤ℤ b.desired_revision) owner h.observed in
    let observed : update.observed_revision ≡ row.observed_revision =
      ap (λ (q : Route). q.observed_revision) c.result
      ∙ validate-observed unicode_lower (kept unicode_lower now c.current raw) c.route c.validated
      ∙ ap (λ (q : Route). q.observed_revision) scanned in
    let revised : update.desired_revision ≡ a.desired_revision +ℤ pos 1 =
      ap (λ (q : Route). q.desired_revision) c.result ∙ next in
    not_ready update at
      (rw (observed, revised) (behind row.observed_revision a.desired_revision low))
