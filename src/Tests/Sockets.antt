-- ===== src/Tests/Sockets.antt =====
-- Runs of the UDP sessions of internal/tcpedge and of internal/sshctl.
use portloom.Maps.Laws.{IsMap}
use portloom.Prelude.{
  Bool, List, Option, Text, [], any, arith, codes, false, if◌then◌else◌, length, none, pos, refl,
  some, text_eq_iff, true, ◌++◌, ◌<◌, ◌==◌, ◌∷◌, ◌≡◌,
}
use portloom.Sshctl.{
  CommandError, SshRunner, Stat, clear_master, is_control_master_absent, is_control_master_stale,
  message, missing, present, remove_stale_control_socket,
}
use portloom.Sshctl.Cleared.{clear_master-ends_gone, ends_gone}
use portloom.Sshctl.Removal.{IsRemoval, is_unlinked, remove_stale_control_socket-IsRemoval}
use portloom.Tcpedge.{take_global, take_route}
use portloom.Tcpedge.Sessions.{
  UdpWorker, begin_session, begin_stop, delete_session, expire, finish_dial, give_back_route,
  new_session, reserve, settle,
}
use portloom.Tcpedge.Sessions.Counted.{
  IsCounted, UdpReach, UdpReach-IsCounted, begins, deletes, finishes, gives_route, listener_opened,
  takes_global, takes_route, then_step,
}
use portloom.Tcpedge.Sessions.Dropped.{expire-sessions}
use portloom.Tests.Routes.{same_case}

abbrev fresh_worker : UdpWorker
fresh_worker = record {
  sessions = [];
  asking = 0;
  holding = 0;
  dialing = 0;
  releasing = 0;
  returning = 0;
  stopped = false;
  slots = record { global_taken = 5; global_limit = 10; route_taken = 0; route_limit = 2 };
  reports = [];
}

-- A client is seen, its call takes both slots, the backend is dialed, and the session starts.
abbrev asked : UdpWorker
asked = (begin_session true (codes "c1") fresh_worker).1

abbrev reserved_one : UdpWorker
reserved_one = reserve asked

abbrev dialed : UdpWorker
dialed = settle reserved_one

abbrev running_worker : UdpWorker
running_worker = finish_dial (codes "c1") 7 100 dialed

worker_run :
    (running_worker.slots.route_taken ≡ 1)
    × (running_worker.slots.global_taken ≡ 6)
    × (length running_worker.sessions ≡ 1)
    × (running_worker.dialing ≡ 0)
unfolding begin_session reserve settle finish_dial take_global take_route
worker_run = (refl, refl, refl, refl)

asking_run : 0 < asked.asking
unfolding begin_session
asking_run = omega arith

holding_run : 0 < reserved_one.holding
unfolding begin_session reserve take_global
holding_run = omega arith

dialing_run : 0 < dialed.dialing
unfolding begin_session reserve settle take_global take_route
dialing_run = omega arith

-- The session is dropped again, up to the second receive of releaseSlot.
abbrev dropped : UdpWorker
dropped = delete_session (codes "c1") 7 running_worker

abbrev half_released : UdpWorker
half_released = give_back_route dropped

releasing_run : 0 < dropped.releasing
unfolding begin_session reserve settle finish_dial take_global take_route delete_session
releasing_run = omega arith

worker_reach : UdpReach 2 10 5 half_released
worker_reach =
    then_step
      (then_step
        (then_step
          (then_step
            (then_step (then_step (listener_opened 5 (omega arith)) (begins true (codes "c1")))
              (takes_global asking_run))
            (takes_route holding_run))
          (finishes (codes "c1") 7 100 dialing_run))
        (deletes (codes "c1") 7))
      (gives_route releasing_run)

UdpReach-IsCounted_example : IsCounted 5 half_released
UdpReach-IsCounted_example = UdpReach-IsCounted 2 10 5 half_released worker_reach

abbrev two_sessions : UdpWorker
two_sessions = record fresh_worker {
  sessions = (codes "c1", new_session 1 10) ∷ (codes "c2", new_session 2 90) ∷ [];
  slots = record { global_taken = 7; global_limit = 10; route_taken = 2; route_limit = 2 };
}

two_sessions-distinct : IsMap ◌==◌ text_eq_iff two_sessions.sessions
unfolding ◌==◌
two_sessions-distinct = (refl, (refl, tt))

expire-sessions_example :
    ((expire 50 two_sessions).sessions ≡ (codes "c2", new_session 2 90) ∷ [])
    × (false ≡ false
        → ((begin_stop two_sessions).sessions ≡ []) × ((begin_stop two_sessions).stopped ≡ true))
expire-sessions_example = expire-sessions 50 two_sessions two_sessions-distinct

-- A path that a socket is at until it is removed; nobody listens.
abbrev ssh_run : List Text → Bool → Option CommandError × Bool
ssh_run args there = (
  some (
      message (
        codes "Control socket connect(/s): "
        ++ (if there then codes "Connection refused" else codes "No such file or directory"))),
  there,
)

abbrev look : Bool → Stat × Bool
look there = (if there then present true 1000 3 else missing, there)

abbrev remove : Bool → Bool × Bool
remove there = (true, false)

abbrev runner : SshRunner
runner = record {
  config = record {
    user = codes "u";
    ssh_host = codes "h";
    ssh_port = pos 22;
    control_path = codes "/s";
  };
  lock_held = true;
  process_exited = false;
  euid = 1000;
}

removal_run :
    any is_unlinked (remove_stale_control_socket same_case ssh_run look remove runner true).events
    ≡ true
unfolding remove_stale_control_socket is_control_master_absent is_control_master_stale
removal_run = refl

remove_stale_control_socket-IsRemoval_example :
    (true ≡ true)
    × IsRemoval 1000 (remove_stale_control_socket same_case ssh_run look remove runner true).events
remove_stale_control_socket-IsRemoval_example =
    remove_stale_control_socket-IsRemoval same_case ssh_run look remove runner true removal_run

clear_run : (clear_master same_case ssh_run look remove runner 3 true).refusal ≡ none
unfolding clear_master is_control_master_absent is_control_master_stale
clear_run = refl

clear_master-ends_gone_example :
    ends_gone (clear_master same_case ssh_run look remove runner 3 true).events ≡ true
clear_master-ends_gone_example =
    clear_master-ends_gone same_case ssh_run look remove runner 3 true clear_run
