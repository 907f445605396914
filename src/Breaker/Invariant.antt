-- ===== src/Breaker/Invariant.antt =====
-- What holds of a breaker between two calls, whatever calls are made and in whatever order.
use be_aether_node.Base.{ℕ, ◌≤◌, ◌<◌, ◌≡◌, ◌≢◌, Option, none, some, List, [], ◌∷◌, arith}
use be_aether_node.Breaker.{
  State, state_closed, state_half_open, Config, CircuitBreaker, new, allow_from, allow, release,
  record_success, record_failure,
}

pub record IsValid (cb : CircuitBreaker) : Type 0 where
  pub failures_below : cb.failures < cb.config.failure_threshold
  pub successes_below : cb.successes < cb.config.success_threshold
  pub slots_bounded : cb.semaphore ≤ cb.config.max_concurrent_requests
  pub failures_closed : cb.failures ≢ 0 → cb.state ≡ state_closed
  pub successes_half_open : cb.successes ≢ 0 → cb.state ≡ state_half_open

-- A slot is held in the half-open state alone.
abbrev pub IsDrained : CircuitBreaker → Type 0
IsDrained cb = cb.semaphore ≢ 0 → cb.state ≡ state_half_open

-- A call that takes the lock or the channel once. `Allow` reads the state first and goes on with
-- the state that it has seen, which another call may have changed since.
pub data Call : Type 0 where
  allow_seen : State → ℕ → Call
  release_slot : Call
  success : Call
  failure : ℕ → Call

abbrev or_same : CircuitBreaker → Option CircuitBreaker → CircuitBreaker
or_same cb none = cb
or_same cb (some cb') = cb'

-- A receive that blocks changes nothing.
unfoldable pub call : Call → CircuitBreaker → CircuitBreaker
unfolding allow_from release record_success record_failure
call (allow_seen s now) cb = (allow_from s now cb).1
call release_slot cb = or_same cb (release cb)
call success cb = record_success cb
call (failure now) cb = record_failure now cb

unfoldable pub run_calls : List Call → CircuitBreaker → CircuitBreaker
run_calls [] cb = cb
run_calls (c ∷ cs) cb = run_calls cs (call c cb)

pub new-IsValid : (c : Config) → IsValid (new c)
unfolding new
new-IsValid c = ground arith

pub call-IsValid : (c : Call) (cb : CircuitBreaker) → IsValid cb → IsValid (call c cb)
unfolding call
call-IsValid (allow_seen state_closed now) cb v = v
call-IsValid (allow_seen s now) cb v = ground arith
call-IsValid release_slot cb v = ground arith
call-IsValid success cb v = ground arith
call-IsValid (failure now) cb v = ground arith

run_calls-IsValid : (cs : List Call) (cb : CircuitBreaker) → IsValid cb → IsValid (run_calls cs cb)
unfolding run_calls
run_calls-IsValid [] cb v = v
run_calls-IsValid (c ∷ cs) cb v = run_calls-IsValid cs (call c cb) (call-IsValid c cb v)

-- However the calls of concurrent goroutines interleave, stale reads of the state included, a
-- breaker made by `New` keeps both counters below their thresholds and its slots within the
-- capacity, counts failures only while closed and successes only while half-open.
pub run_calls-new-IsValid : (c : Config) (cs : List Call) → IsValid (run_calls cs (new c))
run_calls-new-IsValid c cs = run_calls-IsValid cs (new c) (new-IsValid c)

pub allow-IsDrained : (now : ℕ) (cb : CircuitBreaker) → IsDrained cb → IsDrained (allow now cb).1
unfolding allow
allow-IsDrained now cb d = ground arith

pub success-IsDrained : (cb : CircuitBreaker) → IsDrained cb → IsDrained (record_success cb)
unfolding record_success
success-IsDrained cb d = ground arith

pub failure-IsDrained :
    (now : ℕ) (cb : CircuitBreaker) → IsDrained cb → IsDrained (record_failure now cb)
unfolding record_failure
failure-IsDrained now cb d = ground arith
