-- ===== src/Sshctl/Cleared.antt =====
-- What is known once the runner has done away with a master that it did not start.
use portloom.Prelude.{
  Bool, List, Option, Text, [], false, if◌then◌else◌, nat_eq, none, not, refl, some, suc, true,
  zero, ℕ, ◌||◌, ◌∷◌, ◌≡◌,
}
use portloom.Sshctl.{
  changed, no_lock, no_socket, not_owned, CommandError, Done, Event, MasterState, Refusal,
  SshRunner, Stat, absent, after_event, asked_exit, clear_master, clear_probed, close_control,
  confirm_absent, confirm_removal, ended, inspected, missing, present, probe_master, probed,
  reinspect, remove_inspected, remove_probed, remove_socket, remove_stale_control_socket, running,
  stale, stop_asked, unknown_state, unlinked, unreadable, wait_control_stopped, wait_probed,
}

-- The last thing that was seen is that there is no master, or nothing at the path.
abbrev pub ends_gone : List Event → Bool
ends_gone [] = false
ends_gone (e ∷ f ∷ events) = ends_gone (f ∷ events)
ends_gone (probed absent ∷ []) = true
ends_gone (inspected missing ∷ []) = true
ends_gone (e ∷ []) = false

ends_gone-more :
    (e : Event) (events : List Event) → ends_gone events ≡ true → ends_gone (e ∷ events) ≡ true
ends_gone-more e [] h = cc
ends_gone-more e (f ∷ events) h = h

module _ {W : Type 0} (unicode_lower : ℕ → ℕ) (run : List Text → W → Option CommandError × W)
    (lstat : W → Stat × W) (unlink : W → Bool × W) (r : SshRunner) where
  abbrev Gone : Done W → Type 0
  Gone d = d.refusal ≡ none → ends_gone d.events ≡ true

  after-Gone : (e : Event) (d : Done W) → Gone d → Gone (after_event e d)
  after-Gone e d h done = ends_gone-more e d.events (h done)

  refused-Gone :
      (e : Event) (refusal : Refusal) (w : W) → Gone (after_event e (ended (some refusal) w))
  refused-Gone e refusal w done = cc

  if-Gone : (b : Bool) (x y : Done W) → Gone x → Gone y → Gone (if b then x else y)
  if-Gone true x y p q = p
  if-Gone false x y p q = q

  confirm_removal-Gone :
      (probe : MasterState × W) → Gone (confirm_removal unicode_lower run lstat unlink r probe)
  unfolding confirm_removal
  confirm_removal-Gone (absent, w) = λ done. refl
  confirm_removal-Gone (unknown_state, w) = λ done. cc
  confirm_removal-Gone (stale, w) = λ done. cc
  confirm_removal-Gone (running, w) = λ done. cc

  remove_socket-Gone :
      (result : Bool × W) → Gone (remove_socket unicode_lower run lstat unlink r result)
  unfolding remove_socket
  remove_socket-Gone (false, w) = λ done. cc
  remove_socket-Gone (true, w) =
      after-Gone unlinked
        (confirm_removal unicode_lower run lstat unlink r
          (probe_master unicode_lower run lstat unlink r w))
        (confirm_removal-Gone (probe_master unicode_lower run lstat unlink r w))

  reinspect-Gone :
      (id : ℕ) (found : Stat × W) → Gone (reinspect unicode_lower run lstat unlink r id found)
  unfolding reinspect
  reinspect-Gone id (missing, w) = λ done. refl
  reinspect-Gone id (unreadable, w) = λ done. cc
  reinspect-Gone id (present socket owner other_id, w) =
      after-Gone (inspected (present socket owner other_id))
        (if not socket || not (nat_eq id other_id)
          then ended (some changed) w
          else remove_socket unicode_lower run lstat unlink r (unlink w))
        (if-Gone (not socket || not (nat_eq id other_id)) (ended (some changed) w)
          (remove_socket unicode_lower run lstat unlink r (unlink w)) (λ done. cc)
          (remove_socket-Gone (unlink w)))

  confirm_absent-Gone :
      (found : Stat × W) → Gone (confirm_absent unicode_lower run lstat unlink r found)
  unfolding confirm_absent
  confirm_absent-Gone (missing, w) = λ done. refl
  confirm_absent-Gone (unreadable, w) = λ done. cc
  confirm_absent-Gone (present socket owner id, w) = λ done. cc

  remove_probed-Gone :
      (id : ℕ) (probe : MasterState × W)
      → Gone (remove_probed unicode_lower run lstat unlink r id probe)
  unfolding remove_probed
  remove_probed-Gone id (absent, w) =
      after-Gone (probed absent) (confirm_absent unicode_lower run lstat unlink r (lstat w))
        (confirm_absent-Gone (lstat w))
  remove_probed-Gone id (stale, w) =
      after-Gone (probed stale) (reinspect unicode_lower run lstat unlink r id (lstat w))
        (reinspect-Gone id (lstat w))
  remove_probed-Gone id (unknown_state, w) = λ done. cc
  remove_probed-Gone id (running, w) = λ done. cc

  remove_inspected-Gone :
      (found : Stat × W) → Gone (remove_inspected unicode_lower run lstat unlink r found)
  unfolding remove_inspected
  remove_inspected-Gone (missing, w) = λ done. refl
  remove_inspected-Gone (unreadable, w) = λ done. cc
  remove_inspected-Gone (present socket owner id, w) =
      let probe = probe_master unicode_lower run lstat unlink r w in
      let rest = remove_probed unicode_lower run lstat unlink r id probe in
      let owned = if not (nat_eq owner r.euid) then ended (some not_owned) w else rest in
      after-Gone (inspected (present socket owner id))
        (if not socket then ended (some no_socket) w else owned)
        (if-Gone (not socket) (ended (some no_socket) w) owned (λ done. cc)
          (if-Gone (not (nat_eq owner r.euid)) (ended (some not_owned) w) rest (λ done. cc)
            (remove_probed-Gone id probe)))

  remove_stale_control_socket-Gone :
      (w : W) → Gone (remove_stale_control_socket unicode_lower run lstat unlink r w)
  unfolding remove_stale_control_socket
  remove_stale_control_socket-Gone w =
      if-Gone r.lock_held (remove_inspected unicode_lower run lstat unlink r (lstat w))
        (ended (some no_lock) w) (remove_inspected-Gone (lstat w)) (λ done. cc)

  wait_probed-Gone :
      (rest : Done W) (probe : MasterState × W)
      → Gone rest
      → Gone (wait_probed unicode_lower run lstat unlink r rest probe)
  unfolding wait_probed
  wait_probed-Gone rest (absent, w) h = λ done. refl
  wait_probed-Gone rest (stale, w) h =
      after-Gone (probed stale) (remove_stale_control_socket unicode_lower run lstat unlink r w)
        (remove_stale_control_socket-Gone w)
  wait_probed-Gone rest (unknown_state, w) h = λ done. cc
  wait_probed-Gone rest (running, w) h = after-Gone (probed running) rest h

  wait_control_stopped-Gone :
      (rounds : ℕ) (w : W) → Gone (wait_control_stopped unicode_lower run lstat unlink r rounds w)
  unfolding wait_control_stopped
  wait_control_stopped-Gone zero w = λ done. cc
  wait_control_stopped-Gone (suc rounds) w =
      let probe = probe_master unicode_lower run lstat unlink r w in
      wait_probed-Gone (wait_control_stopped unicode_lower run lstat unlink r rounds probe.1) probe
        (wait_control_stopped-Gone rounds probe.1)

  stop_asked-Gone :
      (rounds : ℕ) (result : Option CommandError × W)
      → Gone (stop_asked unicode_lower run lstat unlink r rounds result)
  unfolding stop_asked
  stop_asked-Gone rounds (some e, w) = λ done. cc
  stop_asked-Gone rounds (none, w) =
      after-Gone asked_exit (wait_control_stopped unicode_lower run lstat unlink r rounds w)
        (wait_control_stopped-Gone rounds w)

  clear_probed-Gone :
      (rounds : ℕ) (probe : MasterState × W)
      → Gone (clear_probed unicode_lower run lstat unlink r rounds probe)
  unfolding clear_probed
  clear_probed-Gone rounds (unknown_state, w) = λ done. cc
  clear_probed-Gone rounds (absent, w) = λ done. refl
  clear_probed-Gone rounds (stale, w) =
      after-Gone (probed stale) (remove_stale_control_socket unicode_lower run lstat unlink r w)
        (remove_stale_control_socket-Gone w)
  clear_probed-Gone rounds (running, w) =
      let asked = close_control unicode_lower run lstat unlink r w in
      after-Gone (probed running) (stop_asked unicode_lower run lstat unlink r rounds asked)
        (stop_asked-Gone rounds asked)

  -- Where EnsureMaster goes on to start a master, or Close succeeds without one of its own, the last
  -- look at the control socket found no master or nothing at the path.
  pub clear_master-ends_gone :
      (rounds : ℕ) (w : W)
      → (clear_master unicode_lower run lstat unlink r rounds w).refusal ≡ none
      → ends_gone (clear_master unicode_lower run lstat unlink r rounds w).events ≡ true
  unfolding clear_master
  clear_master-ends_gone rounds w =
      clear_probed-Gone rounds (probe_master unicode_lower run lstat unlink r w)
