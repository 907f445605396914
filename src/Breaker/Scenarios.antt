-- ===== src/Breaker/Scenarios.antt =====
-- Runs of the breaker that the telemetry repository makes, and each theorem at one of them.
use be_aether_node.Base.{
  ◌*◌, ◌<◌, ◌≡◌, refl, ◌↔◌, ◌⊎◌, inl, String, suc, true, none, some, List, [], ◌∷◌, arith, second,
}
use be_aether_node.Breaker.{
  state_closed, state_half_open, state_open, circuit_open, Config, CircuitBreaker, new, blocked,
  finished, refused, allow, record_failure, execute,
}
use be_aether_node.Breaker.Invariant.{
  IsValid, allow_seen, release_slot, success, failure, Call, call, run_calls, run_calls-new-IsValid,
}
use be_aether_node.Breaker.Execute.{Returns, ComesBack, execute-Returns_iff}
use be_aether_node.Breaker.Trip.{Outcome, record_outcome, record_all, HasFailureRun, trips_iff}
use be_aether_node.Breaker.Recovery.{succeed, recovers, failure_refuses}
use be_aether_node.Breaker.Callbacks.{ToHalfOpen, notified_half_open}
use be_aether_node.Breaker.Group.{new_group, get_locked, get_locked_again}

-- The configuration of the telemetry repository, with a callback.
abbrev influxdb : Config
influxdb = record {
  name = "influxdb";
  failure_threshold = 5;
  success_threshold = 2;
  timeout = 30 * second;
  max_concurrent_requests = 10;
  on_state_change = true;
}

abbrev breaker : CircuitBreaker
breaker = record {
  name = "influxdb";
  config = influxdb;
  state = state_half_open;
  failures = 0;
  successes = 0;
  last_failure = some 7;
  semaphore = 0;
  notified = [];
}

-- The first call hangs, and so does the success that closes the breaker; the one before it returns.
first_call : execute 0 1 none (new influxdb) ≡ blocked (new influxdb)
unfolding execute new
first_call = refl

half_open_calls :
    (execute 0 1 none breaker ≡ finished none (record breaker { successes = 1 }))
    × (execute 0 1 none (record breaker { successes = 1 })
        ≡ blocked (record breaker { state = state_closed }))
    × (execute 8 9 none (record breaker { state = state_open })
        ≡ refused circuit_open (record breaker { state = state_open }))
unfolding execute
half_open_calls = (refl, refl, refl)

-- A stale read: `Allow` has seen half-open, the breaker is closed again, and the slot stays taken.
slot_leaks : (call (allow_seen state_half_open 9) (new influxdb)).semaphore ≡ 1
unfolding call new
slot_leaks = refl

execute-Returns_iff_example : Returns (execute 0 1 none breaker) ↔ ComesBack 0 none breaker
execute-Returns_iff_example = execute-Returns_iff 0 1 none breaker (λ n. absurd (n refl))

abbrev outage : List Outcome
outage = some 1 ∷ none ∷ some 2 ∷ some 3 ∷ some 4 ∷ some 5 ∷ some 6 ∷ none ∷ []

trips_iff_example :
    let cb = record_all outage (new influxdb) in
    ((cb.state ≡ state_open) ↔ HasFailureRun (new influxdb).config.failure_threshold outage)
    × ((cb.state ≡ state_open) ⊎ (cb.state ≡ state_closed))
trips_iff_example = trips_iff influxdb outage

outage_trips : (record_all outage (new influxdb)).state ≡ state_open
unfolding record_all record_outcome new
outage_trips = refl

recovers_example :
    let (e, cb') = allow (60 * second) (record breaker { state = state_open }) in
    (e ≡ none)
    × (1 < breaker.config.success_threshold → (succeed 1 cb').state ≡ state_half_open)
    × (suc 1 ≡ breaker.config.success_threshold
        → ((succeed 2 cb').state ≡ state_closed) × ((succeed 2 cb').failures ≡ 0))
recovers_example =
    recovers (60 * second) 1 (record breaker { state = state_open }) refl (omega arith)

failure_refuses_example :
    let cb' = record_failure 100 breaker in allow 101 cb' ≡ (some circuit_open, cb')
failure_refuses_example = failure_refuses 100 101 breaker (inl refl) (omega arith) (omega arith)

abbrev traffic : List Call
traffic =
    failure 1
    ∷ failure 2
    ∷ failure 3
    ∷ failure 4
    ∷ failure 5
    ∷ allow_seen state_open (60 * second)
    ∷ allow_seen state_half_open (61 * second)
    ∷ success
    ∷ release_slot
    ∷ success
    ∷ []

run_calls-new-IsValid_example : IsValid (run_calls traffic (new influxdb))
run_calls-new-IsValid_example = run_calls-new-IsValid influxdb traffic

notified_half_open_example : ToHalfOpen (run_calls traffic (new influxdb)).notified
notified_half_open_example = notified_half_open influxdb traffic

traffic_notified : (run_calls traffic (new influxdb)).notified ≡ (state_open, state_half_open) ∷ []
unfolding run_calls call new
traffic_notified = refl

abbrev nats : String
nats = "nats"

influxdb_got_again :
    let (cb, g') = get_locked "influxdb" (new_group influxdb) in get_locked "influxdb" g' ≡ (cb, g')
influxdb_got_again = get_locked_again "influxdb" (new_group influxdb)
