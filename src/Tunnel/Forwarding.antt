-- ===== src/Tunnel/Forwarding.antt =====
-- internal/agent/reconciler.go: what Reconcile does with the forward of one route.
pub mod Establish
use portloom.Domain.Route.{second}
use portloom.Maps.{map_get, map_put, map_remove}
use portloom.Prelude.{
  Bool, Option, Text, [], codes, false, if◌then◌else◌, none, some, true, ◌++◌, ◌==◌,
}
use portloom.Tunnel.{
  Forward, Observation, Reconciler, Runner, Status, disabled, error, same_forward, up,
}

unfoldable pub join_errors : Text → Text → Text
join_errors first second = first ++ codes "; " ++ second

-- Whether the active forward is there and is the desired one.
abbrev pub is_current : Forward → Option Forward → Bool
unfolding same_forward
is_current f none = false
is_current f (some g) = same_forward g f

-- What one route leaves: its observation, whether a cancellation failed, and the state.
pub record Outcome (W : Type 0) : Type 0 where
  pub observation : Observation
  pub cancel_failed : Bool
  pub reconciler : Reconciler W

module _ {W : Type 0} (runner : Runner W) where
  unfoldable pub cancel_route : Text → Reconciler W → Option Text × Reconciler W
  unfolding ◌==◌
  cancel_route id r = elim (map_get ◌==◌ id r.active) [
    | none ↦ (none, r)
    | some f ↦
        let call = runner.cancel f r.world in
        elim call.0 [
          | some m ↦
              (some (codes "cancel route " ++ id ++ codes ": " ++ m), record r { world = call.1 })
          | none ↦ (none, record r { active = map_remove ◌==◌ id r.active; world = call.1 })
        ]
  ]

  -- A route that cannot be served: its forward is cancelled, and both errors are reported.
  unfoldable pub fail_route : Text → Status → Text → Reconciler W → Outcome W
  unfolding cancel_route join_errors
  fail_route id status m r =
      let c = cancel_route id r in
      elim c.0 [
        | none ↦ record {
          observation = record {
            route_id = id;
            local_status = status;
            tunnel_status = status;
            message = m;
          };
          cancel_failed = false;
          reconciler = c.1;
        }
        | some e ↦ record {
          observation = record {
            route_id = id;
            local_status = status;
            tunnel_status = error;
            message = join_errors m e;
          };
          cancel_failed = true;
          reconciler = c.1;
        }
      ]

  unfoldable pub disable_route : Text → Reconciler W → Outcome W
  unfolding cancel_route
  disable_route id r =
      let c = cancel_route id r in
      elim c.0 [
        | none ↦ record {
          observation = record {
            route_id = id;
            local_status = disabled;
            tunnel_status = disabled;
            message = [];
          };
          cancel_failed = false;
          reconciler = c.1;
        }
        | some e ↦ record {
          observation = record {
            route_id = id;
            local_status = disabled;
            tunnel_status = error;
            message = e;
          };
          cancel_failed = true;
          reconciler = c.1;
        }
      ]

  -- r.runner.Forward, and what is recorded of it.
  unfoldable pub open_forward : Text → Forward → Reconciler W → Outcome W
  unfolding ◌==◌
  open_forward id f r =
      let call = runner.forward f r.world in
      elim call.0 [
        | some m ↦ record {
          observation = record {
            route_id = id;
            local_status = up;
            tunnel_status = error;
            message = m;
          };
          cancel_failed = false;
          reconciler = record r { world = call.1 };
        }
        | none ↦ record {
          observation = record {
            route_id = id;
            local_status = up;
            tunnel_status = up;
            message = [];
          };
          cancel_failed = false;
          reconciler = record r { active = map_put ◌==◌ id f r.active; world = call.1 };
        }
      ]

  -- The master connection is started where it is not ready.
  unfoldable pub with_master : Text → Forward → Reconciler W → Outcome W
  unfolding open_forward
  with_master id f r =
      let call = runner.ensure_master r.world in
      let started = open_forward id f (record r { master_ready = true; world = call.1 }) in
      if r.master_ready then open_forward id f r else elim call.0 [
        | some m ↦ record {
          observation = record {
            route_id = id;
            local_status = up;
            tunnel_status = error;
            message = codes "ensure SSH master: " ++ m;
          };
          cancel_failed = false;
          reconciler = record r { world = call.1 };
        }
        | none ↦ started
      ]

  -- The steps for a route whose local side is up, from the comparison with the active forward.
  unfoldable pub establish : Text → Forward → Reconciler W → Outcome W
  unfolding ◌==◌ same_forward cancel_route with_master
  establish id f r =
      let c = cancel_route id r in
      let next : Outcome W = elim c.0 [
        | some m ↦ record {
          observation = record {
            route_id = id;
            local_status = up;
            tunnel_status = error;
            message = m;
          };
          cancel_failed = true;
          reconciler = c.1;
        }
        | none ↦ with_master id f c.1
      ] in
      if is_current f (map_get ◌==◌ id r.active)
      then record {
        observation = record { route_id = id; local_status = up; tunnel_status = up; message = [] };
        cancel_failed = false;
        reconciler = r;
      }
      else next
