-- ===== src/Metrics.antt =====
-- internal/metrics/metrics.go: traffic counters and the series of the last hour. The clock is an
-- argument, as Unix minutes; counters are the 64 bits of Go's int64, which wrap.
pub mod Window
pub mod Totals
use portloom.Prelude.{
  List, Text, [], add_int64, get_or, if◌then◌else◌, keep, nat_eq, not, replicate, set, suc, zero, ℕ,
  ◌%◌, ◌*◌, ◌-◌, ◌==◌, ◌∷◌,
}

abbrev pub series_minutes : ℕ
series_minutes = 60

pub record Counters : Type 0 where
  pub requests : ℕ
  pub bytes_in : ℕ
  pub bytes_out : ℕ

pub record Sample : Type 0 where
  pub unix : ℕ
  pub requests : ℕ
  pub bytes_in : ℕ
  pub bytes_out : ℕ

-- `perRoute` is an association list: a route that was not observed has no entry.
pub record Registry : Type 0 where
  pub total : Counters
  pub per_route : List (Text × Counters)
  pub slots : List Sample

pub record Snapshot : Type 0 where
  pub total : Counters
  pub routes : List (Text × Counters)
  pub series : List Sample

abbrev pub no_counters : Counters
no_counters = record { requests = 0; bytes_in = 0; bytes_out = 0 }

abbrev pub empty_sample : ℕ → Sample
empty_sample unix = record { unix = unix; requests = 0; bytes_in = 0; bytes_out = 0 }

unfoldable pub new : Registry
new = record {
  total = no_counters;
  per_route = [];
  slots = replicate series_minutes (empty_sample 0);
}

abbrev pub add_counters : Counters → ℕ → ℕ → ℕ → Counters
add_counters c requests bytes_in bytes_out = record {
  requests = add_int64 c.requests requests;
  bytes_in = add_int64 c.bytes_in bytes_in;
  bytes_out = add_int64 c.bytes_out bytes_out;
}

abbrev pub add_sample : Sample → ℕ → ℕ → ℕ → Sample
add_sample s requests bytes_in bytes_out = record {
  unix = s.unix;
  requests = add_int64 s.requests requests;
  bytes_in = add_int64 s.bytes_in bytes_in;
  bytes_out = add_int64 s.bytes_out bytes_out;
}

-- `counters, ok := r.perRoute[routeID]`, with a new entry where there is none.
unfoldable pub add_route : Text → ℕ → ℕ → ℕ → List (Text × Counters) → List (Text × Counters)
unfolding ◌==◌
add_route id requests bytes_in bytes_out [] =
    (id, add_counters no_counters requests bytes_in bytes_out) ∷ []
add_route id requests bytes_in bytes_out ((j, c) ∷ rest) =
    if j == id
    then (j, add_counters c requests bytes_in bytes_out) ∷ rest
    else (j, c) ∷ add_route id requests bytes_in bytes_out rest

-- The slot of a minute, emptied first if it holds another minute.
abbrev pub fresh_slot : Sample → ℕ → Sample
fresh_slot s minute = if nat_eq s.unix (minute * 60) then s else empty_sample (minute * 60)

abbrev pub slot_at : List Sample → ℕ → Sample
slot_at slots minute = get_or slots (minute % series_minutes) (empty_sample 0)

unfoldable pub observe : Registry → ℕ → Text → ℕ → ℕ → ℕ → Registry
unfolding add_route
observe r minute id requests bytes_in bytes_out = record {
  total = add_counters r.total requests bytes_in bytes_out;
  per_route = add_route id requests bytes_in bytes_out r.per_route;
  slots =
      set r.slots (minute % series_minutes)
        (add_sample (fresh_slot (slot_at r.slots minute) minute) requests bytes_in bytes_out);
}

-- ObserveHTTP and ObserveStream: one request, connection or session.
abbrev pub observe_http : Registry → ℕ → Text → ℕ → ℕ → Registry
observe_http r minute id request_bytes response_bytes =
    observe r minute id 1 request_bytes response_bytes

abbrev pub observe_stream : Registry → ℕ → Text → ℕ → ℕ → Registry
observe_stream r minute id bytes_in bytes_out = observe r minute id 1 bytes_in bytes_out

unfoldable pub forget : Registry → Text → Registry
unfolding ◌==◌
forget r id = record r { per_route = keep (λ e. not (e.0 == id)) r.per_route }

-- One entry of the series.
unfoldable pub sample_at : Registry → ℕ → Sample
sample_at r target = fresh_slot (slot_at r.slots target) target

-- The loop of Snapshot: `offset` counts down to 0. The clock is past 1970-01-01 00:59, so that
-- the minutes of the window are no negative numbers.
unfoldable pub series : Registry → ℕ → ℕ → List Sample
unfolding sample_at
series r minute zero = []
series r minute (suc offset) = sample_at r (minute - offset) ∷ series r minute offset

unfoldable pub snapshot : Registry → ℕ → Snapshot
unfolding series
snapshot r minute = record {
  total = r.total;
  routes = r.per_route;
  series = series r minute series_minutes;
}
