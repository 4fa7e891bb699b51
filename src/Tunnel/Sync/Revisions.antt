-- ===== src/Tunnel/Sync/Revisions.antt =====
-- Which desired states a syncer accepts.
use portloom.Prelude.{Option, Option-cases, arith, inl, inr, negsuc, none, pos, some, ℤ, ◌≡◌, ◌≤ℤ◌}
use portloom.Tunnel.{Desired}
use portloom.Tunnel.Sync.{Syncer, accept_desired, accepted_as}

-- The revision of the accepted state, and -1 where there is none.
abbrev pub accepted_revision : Option Desired → ℤ
accepted_revision none = negsuc 0
accepted_revision (some d) = d.revision

-- A desired state that is accepted has a revision that is neither negative nor below that of the
-- state accepted before, the accepted state has that revision then, and the revision that was
-- reported last does not change.
pub accept_desired-forward :
    (d : Desired) (s s' : Syncer)
    → accept_desired d s ≡ accepted_as s'
    → (pos 0 ≤ℤ d.revision)
      × (accepted_revision s.accepted ≤ℤ d.revision)
      × (accepted_revision s'.accepted ≡ d.revision)
      × (s'.observed_revision ≡ s.observed_revision)
unfolding accept_desired
accept_desired-forward d s s' done = elim (Option-cases s.accepted) [
  | inl e ↦ (ground arith, rw e (ground arith), ground arith, ground arith)
  | inr (before, e) ↦ (ground arith, rw e (ground arith), ground arith, ground arith)
]
