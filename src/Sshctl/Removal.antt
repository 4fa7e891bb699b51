-- ===== src/Sshctl/Removal.antt =====
-- When the control socket is removed.
use portloom.Prelude.{
  Bool, Bool-cases, List, Option, Text, [], any, ap, arith, false, inl, inr, nat_eq, nat_eq_iff,
  not, refl, true, ℕ, ◌||◌, ◌∙◌, ◌∷◌, ◌≡◌,
}
use portloom.Sshctl.{
  CommandError, Done, Event, MasterState, SshRunner, Stat, absent, confirm_absent, inspected,
  missing, present, probe_master, probed, reinspect, remove_inspected, remove_probed, remove_socket,
  remove_stale_control_socket, running, stale, unknown_state, unlinked, unreadable,
}

abbrev pub is_unlinked : Event → Bool
is_unlinked unlinked = true
is_unlinked _ = false

-- A removal, seen from what happened: the path was a socket of the runner's user, ssh refused a
-- connection to it, and the path was still the same socket.
pub record IsRemoval (euid : ℕ) (events : List Event) : Type 0 where
  pub owner : ℕ
  pub id : ℕ
  pub rest : List Event
  pub happened :
      events
      ≡ inspected (present true euid id)
        ∷ probed stale
        ∷ inspected (present true owner id)
        ∷ unlinked
        ∷ rest

module _ {W : Type 0} (unicode_lower : ℕ → ℕ) (run : List Text → W → Option CommandError × W)
    (lstat : W → Stat × W) (unlink : W → Bool × W) (r : SshRunner) where
  abbrev removes : Done W → Bool
  removes d = any is_unlinked d.events

  confirm_absent-quiet :
      (found : Stat × W) → removes (confirm_absent unicode_lower run lstat unlink r found) ≡ false
  unfolding confirm_absent
  confirm_absent-quiet (missing, w) = refl
  confirm_absent-quiet (unreadable, w) = refl
  confirm_absent-quiet (present socket owner id, w) = refl

  remove_socket-events :
      (result : Bool × W)
      → (rest : List Event) × ((remove_socket unicode_lower run lstat unlink r result).events
          ≡ unlinked ∷ rest)
  unfolding remove_socket
  remove_socket-events (false, w) = ([], refl)
  remove_socket-events (true, w) = (_, refl)

  -- What a reinspection needs to remove the socket.
  record IsReinspected (id : ℕ) (events : List Event) : Type 0 where
    owner : ℕ
    rest : List Event
    happened : events ≡ inspected (present true owner id) ∷ unlinked ∷ rest

  reinspect-IsReinspected :
      (id : ℕ) (found : Stat × W)
      → removes (reinspect unicode_lower run lstat unlink r id found) ≡ true
      → IsReinspected id (reinspect unicode_lower run lstat unlink r id found).events
  unfolding reinspect
  reinspect-IsReinspected id (missing, w) h = cc
  reinspect-IsReinspected id (unreadable, w) h = cc
  reinspect-IsReinspected id (present socket owner other_id, w) h =
      elim (Bool-cases (not socket || not (nat_eq id other_id))) [
        | inl e ↦ absurd (ground arith)
        | inr e ↦
            let (rest, same) = remove_socket-events (unlink w) in
            let is_socket : socket ≡ true = ground arith in
            let same_id : other_id ≡ id = ground (arith, nat_eq_iff id other_id) in
            record {
              owner = owner;
              rest = rest;
              happened = rw e (
                  ap (inspected (present socket owner other_id) ∷◌) same
                  ∙ ap (λ x. inspected (present x owner other_id) ∷ unlinked ∷ rest) is_socket
                  ∙ ap (λ x. inspected (present true owner x) ∷ unlinked ∷ rest) same_id);
            }
      ]

  remove_probed-IsReinspected :
      (id : ℕ) (probe : MasterState × W)
      → removes (remove_probed unicode_lower run lstat unlink r id probe) ≡ true
      → (events : List Event) × IsReinspected id events
        × ((remove_probed unicode_lower run lstat unlink r id probe).events ≡ probed stale ∷ events)
  unfolding remove_probed
  remove_probed-IsReinspected id (absent, w) h =
      absurd (ground (arith, confirm_absent-quiet (lstat w)))
  remove_probed-IsReinspected id (stale, w) h = (_, reinspect-IsReinspected id (lstat w) h, refl)
  remove_probed-IsReinspected id (unknown_state, w) h = cc
  remove_probed-IsReinspected id (running, w) h = cc

  remove_inspected-IsRemoval :
      (found : Stat × W)
      → removes (remove_inspected unicode_lower run lstat unlink r found) ≡ true
      → IsRemoval r.euid (remove_inspected unicode_lower run lstat unlink r found).events
  unfolding remove_inspected
  remove_inspected-IsRemoval (missing, w) h = cc
  remove_inspected-IsRemoval (unreadable, w) h = cc
  remove_inspected-IsRemoval (present socket owner id, w) h =
      let probe = probe_master unicode_lower run lstat unlink r w in
      elim (Bool-cases socket) [
        | inr e ↦ absurd (ground arith)
        | inl e ↦ elim (Bool-cases (nat_eq owner r.euid)) [
          | inr f ↦ absurd (ground arith)
          | inl f ↦
              let (events, again, same) = remove_probed-IsReinspected id probe (ground arith) in
              record {
                owner = again.owner;
                id = id;
                rest = again.rest;
                happened =
                    rw (e, f)
                      (ap (inspected (present true owner id) ∷◌)
                          (same ∙ ap (probed stale ∷◌) again.happened)
                        ∙ ap
                            (λ x.
                              inspected (present true x id)
                              ∷ probed stale
                              ∷ inspected (present true again.owner id)
                              ∷ unlinked
                              ∷ again.rest)
                            ((nat_eq_iff owner r.euid).0 f));
              }
        ]
      ]

  -- The control socket is removed only by a runner that holds the lock of its path, after it saw a
  -- socket of its own user there, ssh was refused a connection, and the same socket was still there.
  pub remove_stale_control_socket-IsRemoval :
      (w : W)
      → any is_unlinked (remove_stale_control_socket unicode_lower run lstat unlink r w).events
        ≡ true
      → (r.lock_held ≡ true)
        × IsRemoval r.euid (remove_stale_control_socket unicode_lower run lstat unlink r w).events
  unfolding remove_stale_control_socket
  remove_stale_control_socket-IsRemoval w h = elim (Bool-cases r.lock_held) [
    | inr e ↦ absurd (ground arith)
    | inl e ↦ rw e (refl, remove_inspected-IsRemoval (lstat w) (ground arith))
  ]
