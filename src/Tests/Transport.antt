-- ===== src/Tests/Transport.antt =====
-- Runs of internal/udpframe and internal/metrics.
use portloom.Metrics.{new, snapshot}
use portloom.Metrics.Totals.{
  Event, IsBounded, forgotten, observed, steps, steps-new-IsBounded, sum_events,
}
use portloom.Metrics.Window.{IsOrdered, Observation, run, series-snapshot, sum_at, window}
use portloom.Prelude.{List, [], arith, codes, map, refl, ℕ, ◌++◌, ◌∷◌, ◌≡◌}
use portloom.Udpframe.{eof, max_payload, ok, read, read_all, write, write_all}
use portloom.Udpframe.RoundTrip.{read-write, read_all-write_all}

write_run : write (1 ∷ 2 ∷ 3 ∷ []) ≡ ok (0 ∷ 3 ∷ 1 ∷ 2 ∷ 3 ∷ [])
unfolding write
write_run = refl

read-write_example :
    read max_payload ((0 ∷ 3 ∷ 1 ∷ 2 ∷ 3 ∷ []) ++ 9 ∷ []) ≡ ok (1 ∷ 2 ∷ 3 ∷ [], 9 ∷ [])
read-write_example =
    read-write max_payload (1 ∷ 2 ∷ 3 ∷ []) (0 ∷ 3 ∷ 1 ∷ 2 ∷ 3 ∷ []) (9 ∷ []) (omega arith)
      write_run

write_all_run : write_all ((1 ∷ []) ∷ [] ∷ []) ≡ ok (0 ∷ 1 ∷ 1 ∷ 0 ∷ 0 ∷ [])
unfolding write_all write
write_all_run = refl

read_all-write_all_example :
    read_all 3 max_payload (0 ∷ 1 ∷ 1 ∷ 0 ∷ 0 ∷ []) ≡ ((1 ∷ []) ∷ [] ∷ [], eof)
read_all-write_all_example =
    read_all-write_all 3 max_payload ((1 ∷ []) ∷ [] ∷ []) (0 ∷ 1 ∷ 1 ∷ 0 ∷ 0 ∷ []) (omega arith)
      (omega arith) write_all_run

abbrev at_minute : ℕ → Observation
at_minute m = record { minute = m; id = codes "r1"; requests = 1; bytes_in = 10; bytes_out = 20 }

abbrev past : List Observation
past = at_minute 1000 ∷ at_minute 1000 ∷ at_minute 900 ∷ []

past-IsOrdered : IsOrdered past 1001
past-IsOrdered = (omega arith, (omega arith, (omega arith, tt)))

series-snapshot_example : (snapshot (run past) 1001).series ≡ map (sum_at past) (window 1001 60)
series-snapshot_example = series-snapshot past 1001 past-IsOrdered (omega arith)

abbrev events : List Event
events = observed (codes "r1") 1000 1 10 20 ∷ forgotten (codes "r1") ∷ []

steps-new-IsBounded_example :
    IsBounded (steps new events) × ((steps new events).total ≡ sum_events events)
steps-new-IsBounded_example =
    steps-new-IsBounded events
      (record { requests = omega arith; bytes_in = omega arith; bytes_out = omega arith })
