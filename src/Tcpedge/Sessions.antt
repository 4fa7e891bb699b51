-- ===== src/Tcpedge/Sessions.antt =====
-- internal/tcpedge/manager.go: the sessions of a UDP listener, in steps of one critical section or
-- one operation of a channel. Backends are told apart by numbers, as the code tells sessions apart by
-- their pointers; the counts of bytes are the 64 bits of an int64.
pub mod Counted
pub mod Dropped
use portloom.Domain.Agent.{Time}
use portloom.Maps.{map_get, map_remove}
use portloom.Prelude.{
  Bool, List, Option, Text, [], add_int64, false, if◌then◌else◌, keep, ltb, nat_eq, none, some,
  true, ℕ, ◌&&◌, ◌+◌, ◌-◌, ◌==◌, ◌∷◌,
}
use portloom.Store.Db.{update_where}
use portloom.Tcpedge.{Slots, give_global, give_route, take_global, take_route}

pub record Session : Type 0 where
  pub backend : ℕ
  pub last_seen : Time
  pub bytes_in : ℕ
  pub bytes_out : ℕ

pub record UdpWorker : Type 0 where
  pub sessions : List (Text × Session)
  -- calls of session that have not asked for a slot yet
  pub asking : ℕ
  -- calls of acquireSlot that took a global slot, before they ask for one of the route
  pub holding : ℕ
  -- calls of session with both slots and no session yet
  pub dialing : ℕ
  -- calls of releaseSlot before the first receive, and between the two; a call of acquireSlot that
  -- gives its global slot back is counted as one of the latter
  pub releasing : ℕ
  pub returning : ℕ
  pub stopped : Bool
  pub slots : Slots
  -- what ObserveStream was told, the latest first
  pub reports : List (ℕ × ℕ)

pub data Started : Type 0 where
  existing : Session → Started
  turned_away wants_slot : Started

-- The start of session, up to acquireSlot, for the session that it finds.
unfoldable pub begin_found : Bool → Option Session → UdpWorker → Started × UdpWorker
begin_found authorized (some s) w = (existing s, w)
begin_found true none w = (wants_slot, record w { asking = w.asking + 1 })
begin_found false none w = (turned_away, w)

unfoldable pub begin_session : Bool → Text → UdpWorker → Started × UdpWorker
unfolding begin_found ◌==◌
begin_session authorized client w = begin_found authorized (map_get ◌==◌ client w.sessions) w

-- The first select of acquireSlot.
abbrev pub reserved : Bool × Slots → UdpWorker → UdpWorker
reserved (true, slots) w = record w {
  asking = w.asking - 1;
  holding = w.holding + 1;
  slots = slots;
}
reserved (false, slots) w = record w { asking = w.asking - 1; slots = slots }

unfoldable pub reserve : UdpWorker → UdpWorker
unfolding take_global
reserve w = reserved (take_global w.slots) w

-- The second select of acquireSlot.
abbrev pub settled : Bool × Slots → UdpWorker → UdpWorker
settled (true, slots) w = record w {
  holding = w.holding - 1;
  dialing = w.dialing + 1;
  slots = slots;
}
settled (false, slots) w = record w {
  holding = w.holding - 1;
  returning = w.returning + 1;
  slots = slots;
}

unfoldable pub settle : UdpWorker → UdpWorker
unfolding take_route
settle w = settled (take_route w.slots) w

-- The two receives of releaseSlot.
unfoldable pub give_back_route : UdpWorker → UdpWorker
unfolding give_route
give_back_route w = record w {
  releasing = w.releasing - 1;
  returning = w.returning + 1;
  slots = give_route w.slots;
}

unfoldable pub give_back_global : UdpWorker → UdpWorker
unfolding give_global
give_back_global w = record w { returning = w.returning - 1; slots = give_global w.slots }

-- A call of session goes on to releaseSlot.
unfoldable pub end_dial : UdpWorker → UdpWorker
end_dial w = record w { dialing = w.dialing - 1; releasing = w.releasing + 1 }

-- The end of session, for a backend that was dialed, whether the listener is stopped and the
-- session that is there by now.
unfoldable pub finish_found : Text → Session → Bool → Option Session → UdpWorker → UdpWorker
unfolding end_dial
finish_found client s true found w = end_dial w
finish_found client s false (some raced) w = end_dial w
finish_found client s false none w = record w {
  dialing = w.dialing - 1;
  sessions = (client, s) ∷ w.sessions;
}

abbrev pub new_session : ℕ → Time → Session
new_session backend now = record { backend = backend; last_seen = now; bytes_in = 0; bytes_out = 0 }

unfoldable pub finish_dial : Text → ℕ → Time → UdpWorker → UdpWorker
unfolding finish_found ◌==◌
finish_dial client backend now w =
    finish_found client (new_session backend now) w.stopped (map_get ◌==◌ client w.sessions) w

abbrev pub is_session : Text → ℕ → Text × Session → Bool
is_session client backend e = client == e.0 && nat_eq backend e.1.backend

-- A datagram of the client or of the backend, on the session as it is found in the map.
abbrev pub touched : Time → ℕ → ℕ → Text × Session → Text × Session
touched now received sent e = (
  e.0,
  record e.1 {
    last_seen = now;
    bytes_in = add_int64 e.1.bytes_in received;
    bytes_out = add_int64 e.1.bytes_out sent;
  },
)

unfoldable pub touch : Text → ℕ → Time → ℕ → ℕ → UdpWorker → UdpWorker
unfolding ◌==◌
touch client backend now received sent w = record w {
  sessions = update_where (is_session client backend) (touched now received sent) w.sessions;
}

-- The critical section of dropSession.
abbrev pub deleted_session : Text → UdpWorker → UdpWorker
deleted_session client w = record w {
  sessions = map_remove ◌==◌ client w.sessions;
  releasing = w.releasing + 1;
}

unfoldable pub delete_found : Text → ℕ → Option Session → UdpWorker → UdpWorker
unfolding ◌==◌
delete_found client backend none w = w
delete_found client backend (some s) w =
    if nat_eq backend s.backend then deleted_session client w else w

unfoldable pub delete_session : Text → ℕ → UdpWorker → UdpWorker
unfolding delete_found ◌==◌
delete_session client backend w = delete_found client backend (map_get ◌==◌ client w.sessions) w

-- What is left of dropSession after that, where it deleted a session.
abbrev pub after_delete : Session → UdpWorker → UdpWorker
after_delete s w =
    let released = give_back_global (give_back_route w) in
    record released { reports = (s.bytes_in, s.bytes_out) ∷ released.reports }

unfoldable pub drop_found : Text → ℕ → Option Session → UdpWorker → UdpWorker
unfolding delete_found give_back_route give_back_global
drop_found client backend none w = w
drop_found client backend (some s) w =
    if nat_eq backend s.backend then after_delete s (delete_found client backend (some s) w) else w

-- dropSession, with no other goroutine in between
unfoldable pub drop_session : Text → ℕ → UdpWorker → UdpWorker
unfolding drop_found ◌==◌
drop_session client backend w = drop_found client backend (map_get ◌==◌ client w.sessions) w

unfoldable pub drop_sessions : List (Text × Session) → UdpWorker → UdpWorker
unfolding drop_session
drop_sessions [] w = w
drop_sessions (e ∷ l) w = drop_sessions l (drop_session e.0 e.1.backend w)

-- One round of expireIdleSessions.
abbrev pub is_idle : Time → Text × Session → Bool
is_idle cutoff e = ltb e.1.last_seen cutoff

unfoldable pub expire : Time → UdpWorker → UdpWorker
unfolding drop_sessions
expire cutoff w = drop_sessions (keep (is_idle cutoff) w.sessions) w

-- beginStop, without the closing of the socket.
unfoldable pub begin_stop : UdpWorker → UdpWorker
unfolding drop_sessions
begin_stop w = if w.stopped then w else drop_sessions w.sessions (record w { stopped = true })
