-- ===== src/Sshctl.antt =====
-- internal/sshctl/openssh.go: what the runner asks of ssh about its control socket, and when it
-- removes the socket. Running ssh, looking at the socket's path and removing it are arguments on the
-- state of the outside; what the runner did there is listed in order. Contexts are left out, but for
-- the waiting on a master, which has a number of rounds; nobody else has the lifecycle gate.
pub mod Removal
pub mod Cleared
use portloom.Prelude.{
  Bool, List, Option, Text, [], codes, false, if◌then◌else◌, nat_eq, none, not, some, suc, true,
  zero, ℕ, ℤ, ◌&&◌, ◌++◌, ◌==◌, ◌||◌, ◌∷◌,
}
use portloom.Strings.{contains, has_prefix, itoa, to_lower, trim_space}
use portloom.Tunnel.{Forward}

pub record SshConfig : Type 0 where
  pub user : Text
  pub ssh_host : Text
  pub ssh_port : ℤ
  pub control_path : Text

abbrev pub destination : SshConfig → Text
destination c = c.user ++ codes "@" ++ c.ssh_host

abbrev pub endpoint_host : Text → Text
endpoint_host host = if contains b':' host then codes "[" ++ host ++ codes "]" else host

unfoldable pub format_forward : Forward → Text
unfolding contains itoa
format_forward f =
    endpoint_host f.bind_host
    ++ codes ":"
    ++ itoa f.remote_port
    ++ codes ":"
    ++ endpoint_host f.local_host
    ++ codes ":"
    ++ itoa f.local_port

abbrev control_args : SshConfig → List Text → List Text
control_args c operation =
    codes "-F" ∷ codes "/dev/null" ∷ codes "-S" ∷ c.control_path ∷ codes "-O" ∷ operation
    ++ codes "-p" ∷ itoa c.ssh_port ∷ destination c ∷ []

-- strings.Contains and strings.HasSuffix on the messages of ssh.
unfoldable pub has_infix : Text → Text → Bool
unfolding has_prefix
has_infix w [] = has_prefix w []
has_infix w (c ∷ s) = has_prefix w (c ∷ s) || has_infix w s

unfoldable pub has_suffix : Text → Text → Bool
unfolding ◌==◌
has_suffix w [] = w == []
has_suffix w (c ∷ s) = w == c ∷ s || has_suffix w s

-- The error of a command: errControlMasterAbsent, or another with its text.
pub data CommandError : Type 0 where
  no_master : CommandError
  message : Text → CommandError

unfoldable pub says : (ℕ → ℕ) → Text → Text → Bool
unfolding trim_space to_lower has_infix has_suffix
says unicode_lower ending text =
    let m = trim_space (to_lower unicode_lower text) in
    has_infix (codes "control socket connect(") m && has_suffix ending m

unfoldable pub is_control_master_absent : (ℕ → ℕ) → CommandError → Bool
unfolding says
is_control_master_absent unicode_lower no_master = true
is_control_master_absent unicode_lower (message text) =
    says unicode_lower (codes "): no such file or directory") text

unfoldable pub is_control_master_stale : (ℕ → ℕ) → CommandError → Bool
unfolding says
is_control_master_stale unicode_lower no_master = false
is_control_master_stale unicode_lower (message text) =
    says unicode_lower (codes "): connection refused") text

pub data MasterState : Type 0 where
  unknown_state absent stale running : MasterState

-- os.Lstat: a socket or not, its owner, and what os.SameFile compares.
pub data Stat : Type 0 where
  missing unreadable : Stat
  present : Bool → ℕ → ℕ → Stat

pub data Event : Type 0 where
  probed : MasterState → Event
  inspected : Stat → Event
  unlinked asked_exit : Event

-- The branches in which a function gives an error.
pub data Refusal : Type 0 where
  no_lock unreadable_path no_socket not_owned still_there changed unlink_failed not_confirmed
        unknown_master exit_failed timed_out :
      Refusal

pub record Done (W : Type 0) : Type 0 where
  pub refusal : Option Refusal
  pub events : List Event
  pub world : W

-- The runner: whether it holds the lock of the path, whether the process it started has exited, and
-- its user.
pub record SshRunner : Type 0 where
  pub config : SshConfig
  pub lock_held : Bool
  pub process_exited : Bool
  pub euid : ℕ

module _ {W : Type 0} where
  abbrev pub ended : Option Refusal → W → Done W
  ended refusal w = record { refusal = refusal; events = []; world = w }

  abbrev pub after_event : Event → Done W → Done W
  after_event e d = record d { events = e ∷ d.events }

module _ {W : Type 0} (unicode_lower : ℕ → ℕ) (run : List Text → W → Option CommandError × W)
    (lstat : W → Stat × W) (unlink : W → Bool × W) (r : SshRunner) where
  abbrev pub state_of : Option CommandError → MasterState
  unfolding is_control_master_absent is_control_master_stale
  state_of none = running
  state_of (some e) =
      if is_control_master_absent unicode_lower e
      then absent
      else if is_control_master_stale unicode_lower e
      then stale
      else unknown_state

  unfoldable pub probe_master : W → MasterState × W
  unfolding itoa is_control_master_absent is_control_master_stale
  probe_master w =
      let (failure, w') = run (control_args r.config (codes "check" ∷ [])) w in
      if r.process_exited then (absent, w) else (state_of failure, w')

  -- The rest of removeStaleControlSocket, from its end.
  unfoldable pub confirm_removal : MasterState × W → Done W
  confirm_removal (absent, w) = after_event (probed absent) (ended none w)
  confirm_removal (s, w) = after_event (probed s) (ended (some not_confirmed) w)

  unfoldable pub remove_socket : Bool × W → Done W
  unfolding confirm_removal probe_master
  remove_socket (false, w) = after_event unlinked (ended (some unlink_failed) w)
  remove_socket (true, w) = after_event unlinked (confirm_removal (probe_master w))

  unfoldable pub reinspect : ℕ → Stat × W → Done W
  unfolding remove_socket
  reinspect id (missing, w) = after_event (inspected missing) (ended none w)
  reinspect id (unreadable, w) = after_event (inspected unreadable) (ended (some unreadable_path) w)
  reinspect id (present socket owner other_id, w) =
      let removal = remove_socket (unlink w) in
      after_event (inspected (present socket owner other_id))
        (if not socket || not (nat_eq id other_id) then ended (some changed) w else removal)

  unfoldable pub confirm_absent : Stat × W → Done W
  confirm_absent (missing, w) = after_event (inspected missing) (ended none w)
  confirm_absent (unreadable, w) =
      after_event (inspected unreadable) (ended (some unreadable_path) w)
  confirm_absent (s, w) = after_event (inspected s) (ended (some still_there) w)

  unfoldable pub remove_probed : ℕ → MasterState × W → Done W
  unfolding confirm_absent reinspect
  remove_probed id (absent, w) = after_event (probed absent) (confirm_absent (lstat w))
  remove_probed id (stale, w) = after_event (probed stale) (reinspect id (lstat w))
  remove_probed id (s, w) = after_event (probed s) (ended (some changed) w)

  unfoldable pub remove_inspected : Stat × W → Done W
  unfolding remove_probed probe_master
  remove_inspected (missing, w) = after_event (inspected missing) (ended none w)
  remove_inspected (unreadable, w) =
      after_event (inspected unreadable) (ended (some unreadable_path) w)
  remove_inspected (present socket owner id, w) =
      let rest = remove_probed id (probe_master w) in
      after_event (inspected (present socket owner id)) (
        if not socket
        then ended (some no_socket) w
        else if not (nat_eq owner r.euid)
        then ended (some not_owned) w
        else rest)

  unfoldable pub remove_stale_control_socket : W → Done W
  unfolding remove_inspected
  remove_stale_control_socket w =
      let removal = remove_inspected (lstat w) in
      if r.lock_held then removal else ended (some no_lock) w

  unfoldable pub close_control : W → Option CommandError × W
  unfolding itoa
  close_control w = run (control_args r.config (codes "exit" ∷ [])) w

  -- waitControlStopped, with as many rounds as its context allows.
  unfoldable pub wait_probed : Done W → MasterState × W → Done W
  unfolding remove_stale_control_socket
  wait_probed rest (absent, w) = after_event (probed absent) (ended none w)
  wait_probed rest (stale, w) = after_event (probed stale) (remove_stale_control_socket w)
  wait_probed rest (unknown_state, w) =
      after_event (probed unknown_state) (ended (some unknown_master) w)
  wait_probed rest (running, w) = after_event (probed running) rest

  unfoldable pub wait_control_stopped : ℕ → W → Done W
  unfolding wait_probed probe_master
  wait_control_stopped zero w = ended (some timed_out) w
  wait_control_stopped (suc rounds) w =
      let rest = wait_control_stopped rounds (probe_master w).1 in wait_probed rest (probe_master w)

  unfoldable pub stop_asked : ℕ → Option CommandError × W → Done W
  unfolding wait_control_stopped
  stop_asked rounds (some e, w) = after_event asked_exit (ended (some exit_failed) w)
  stop_asked rounds (none, w) = after_event asked_exit (wait_control_stopped rounds w)

  -- The `switch` on the state of a master that the runner did not start, of EnsureMaster and Close.
  unfoldable pub clear_probed : ℕ → MasterState × W → Done W
  unfolding remove_stale_control_socket close_control stop_asked
  clear_probed rounds (unknown_state, w) =
      after_event (probed unknown_state) (ended (some unknown_master) w)
  clear_probed rounds (absent, w) = after_event (probed absent) (ended none w)
  clear_probed rounds (stale, w) = after_event (probed stale) (remove_stale_control_socket w)
  clear_probed rounds (running, w) =
      after_event (probed running) (stop_asked rounds (close_control w))

  unfoldable pub clear_master : ℕ → W → Done W
  unfolding clear_probed probe_master
  clear_master rounds w = clear_probed rounds (probe_master w)
