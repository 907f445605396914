-- ===== src/Telemetry/Bypass.antt =====
-- The functions of Telemetry/Query that go through the circuit breaker, and those that bypass it.
use be_aether_node.Base.{
  ℕ, ◌+◌, ◌-◌, ◌<◌, ◌≡◌, refl, ◌≢◌, ◌↔◌, ◌⊎◌, inl, inr, ap, String, true, false, Option, none, some,
  List, Dict, arith,
}
use be_aether_node.Base.Int.{ℤ}
use be_aether_node.Breaker.{
  state_half_open, CircuitBreaker, new, Execution, refused, finished, blocked, execute,
}
use be_aether_node.Breaker.Invariant.{IsDrained}
use be_aether_node.Telemetry.{Value, Formats}
use be_aether_node.Telemetry.Dashboard.{HealthData}
use be_aether_node.Telemetry.Query.{
  new_influx_breaker, DeviceFilter, Answer, returned, stuck, after_execute, query_flux_generic,
  parsed_by, get_telemetry_data, get_latest_telemetry, get_latest_telemetry_sse, get_health_data,
  get_latest_health, get_latest_health_sse,
}

-- Half-open with a free slot, and one success short of closing at least.
abbrev pub HasSlot : CircuitBreaker → Type 0
HasSlot cb =
    (cb.state ≡ state_half_open)
    × (cb.semaphore < cb.config.max_concurrent_requests)
    × (cb.successes + 1 < cb.config.success_threshold)

execute-HasSlot :
    (asked answered : ℕ) (e : Option String) (cb cb' : CircuitBreaker)
    → IsDrained cb
    → execute asked answered none cb ≡ finished e cb'
    → HasSlot cb
unfolding execute
execute-HasSlot asked answered e cb cb' d h = ground arith

execute-in_slot :
    (asked answered : ℕ) (cb : CircuitBreaker)
    → HasSlot cb
    → (cb' : CircuitBreaker) × (execute asked answered none cb ≡ finished none cb')
unfolding execute
execute-in_slot asked answered cb s =
    (record cb { successes = cb.successes + 1; semaphore = cb.semaphore + 1 - 1 }, ground arith)

execute-failure :
    (asked answered : ℕ) (e : String) (cb cb' : CircuitBreaker)
    → execute asked answered (some e) cb ≢ finished none cb'
unfolding execute
execute-failure asked answered e cb cb' h = ground arith

parsed_execution-records :
    {A B : Type 0} (f : List A → B) (r : List A) (x : Execution) (ys : B) (cb' : CircuitBreaker)
    → parsed_by f (after_execute (inr r) x) ≡ returned (inr ys) cb'
    → (x ≡ finished none cb') × (f r ≡ ys)
unfolding parsed_by
parsed_execution-records f r (refused e cb) ys cb' h = cc
parsed_execution-records f r (finished none cb) ys cb' h = (cc, cc)
parsed_execution-records f r (finished (some e) cb) ys cb' h = cc
parsed_execution-records f r (blocked cb) ys cb' h = cc

failed_execution-records :
    {A B : Type 0} (f : List A → B) (e : String) (x : Execution) (ys : B) (cb' : CircuitBreaker)
    → ((c : CircuitBreaker) → x ≢ finished none c)
    → parsed_by f (after_execute (inl e) x) ≢ returned (inr ys) cb'
unfolding parsed_by
failed_execution-records f e (refused err cb) ys cb' n h = cc
failed_execution-records f e (finished none cb) ys cb' n h = absurd (n cb refl)
failed_execution-records f e (finished (some err) cb) ys cb' n h = cc
failed_execution-records f e (blocked cb) ys cb' n h = cc

returned-records :
    {B : Type 0} {x y : B} {cb cb' : CircuitBreaker}
    → returned (inr x) cb ≡ returned (inr y) cb'
    → x ≡ y
returned-records h = cc h

query-records_iff :
    {A B : Type 0} (f : List A → B) (asked answered : ℕ) (outcome : String ⊎ List A)
    (cb : CircuitBreaker) (ys : B)
    → IsDrained cb
    → ((cb' : CircuitBreaker) × (parsed_by f (query_flux_generic asked answered outcome false cb)
          ≡ returned (inr ys) cb'))
      ↔ ((parsed_by f (query_flux_generic asked answered outcome true cb) ≡ returned (inr ys) cb)
          × HasSlot cb)
unfolding query_flux_generic parsed_by
query-records_iff f asked answered (inl e) cb ys d = (
  λ p. absurd (failed_execution-records f e _ ys p.0 (execute-failure asked answered e cb) p.1),
  λ p. cc p.0,
)
query-records_iff f asked answered (inr r) cb ys d = (
  λ p.
      let (x, y) = parsed_execution-records f r (execute asked answered none cb) ys p.0 p.1 in
      (ap (λ z. returned (inr z) cb) y, execute-HasSlot asked answered none cb p.0 d x),
  λ p.
      let (cb', x) = execute-in_slot asked answered cb p.1 in
      (cb', rw x (ap (λ z. returned (inr z) cb') (returned-records p.0))),
)

-- The first query of a new repository that goes through the breaker is stuck, whatever it gives.
pub first_query_stuck :
    {A : Type 0} (asked answered : ℕ) (outcome : String ⊎ List A)
    → (cb : CircuitBreaker) × (query_flux_generic asked answered outcome false new_influx_breaker
        ≡ stuck cb)
unfolding query_flux_generic new_influx_breaker execute new
first_query_stuck asked answered (inl e) = (_, refl)
first_query_stuck asked answered (inr r) = (_, refl)

-- While slots are held in the half-open state alone, and whatever InfluxDB answers: GetLatestTelemetry
-- and GetLatestHealth return a result exactly if the function of that name for server-sent events,
-- which bypasses the breaker and leaves it as it is, returns it and the breaker is half-open, with a
-- free slot, and this success is not the one that closes it.
pub latest-records_iff :
    {F : Type 0} (fmt : Formats F) (read_all : String → String ⊎ List (List String))
    (bucket : String) (influx : String → Answer) (asked answered : ℕ) (zero : F) (of_int : ℤ → F)
    (order : List (HealthData F) → List (HealthData F)) (read : ℕ) (filter : DeviceFilter)
    (cb : CircuitBreaker) (found : Dict (Dict (Value F))) (healths : List (HealthData F))
    → IsDrained cb
    → (((cb' : CircuitBreaker) × (get_latest_telemetry fmt read_all bucket influx asked answered
              filter cb
            ≡ returned (inr found) cb'))
        ↔ ((get_latest_telemetry_sse fmt read_all bucket influx asked answered filter cb
              ≡ returned (inr found) cb)
            × HasSlot cb))
      × (((cb' : CircuitBreaker) × (get_latest_health fmt read_all bucket influx asked answered zero
                of_int order read filter cb
              ≡ returned (inr healths) cb'))
          ↔ ((get_latest_health_sse fmt read_all bucket influx asked answered zero of_int order read
                  filter cb
                ≡ returned (inr healths) cb)
              × HasSlot cb))
unfolding get_latest_telemetry get_latest_telemetry_sse get_telemetry_data get_latest_health
    get_latest_health_sse get_health_data
latest-records_iff fmt read_all bucket influx asked answered zero of_int order read filter cb found
      healths d =
    (
      query-records_iff _ asked answered _ cb found d,
      query-records_iff _ asked answered _ cb healths d,
    )
