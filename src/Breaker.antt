-- ===== src/Breaker.antt =====
-- internal/circuitbreaker/circuitbreaker.go: the circuit breaker and its group.
-- A method that changes the breaker returns the new record. `time.Now()` is the argument `now`,
-- in nanoseconds; `lastFailure` is `none` while it is the zero time. The fields of `Config` are
-- taken to be non-negative. The semaphore is the number of slots that the buffered channel holds.
-- A receive from an empty channel, and so `Release` and `Execute`, may block: that is a value here.
pub mod Invariant
pub mod Execute
pub mod Trip
pub mod Recovery
pub mod Callbacks
pub mod Group
mod Scenarios
use be_aether_node.Base.{
  ℕ, suc, ◌+◌, ◌-◌, ◌*◌, String, Bool, true, false, Option, none, some, List, [], ◌∷◌, ltb, leb,
  ◌==◌, if◌then◌else◌, second, max_int64,
}

pub data State : Type 0 where
  state_closed state_half_open state_open : State

pub data Err : Type 0 where
  circuit_open too_many_requests : Err

-- `State.String`
unfoldable pub state_string : State → String
state_string state_closed = "closed"
state_string state_half_open = "half-open"
state_string state_open = "open"

-- `on_state_change` says whether a callback was given.
pub record Config : Type 0 where
  pub name : String
  pub failure_threshold : ℕ
  pub success_threshold : ℕ
  pub timeout : ℕ
  pub max_concurrent_requests : ℕ
  pub on_state_change : Bool

-- `notified` lists the calls of `OnStateChange`, the latest first.
pub record CircuitBreaker : Type 0 where
  pub name : String
  pub config : Config
  pub state : State
  pub failures : ℕ
  pub successes : ℕ
  pub last_failure : Option ℕ
  pub semaphore : ℕ
  pub notified : List (State × State)

abbrev or_default : ℕ → ℕ → ℕ
or_default n d = if n == 0 then d else n

unfoldable pub with_defaults : Config → Config
with_defaults c = record c {
  failure_threshold = or_default c.failure_threshold 5;
  success_threshold = or_default c.success_threshold 2;
  timeout = or_default c.timeout (30 * second);
  max_concurrent_requests = or_default c.max_concurrent_requests 1;
}

-- `New`
unfoldable pub new : Config → CircuitBreaker
unfolding with_defaults
new c = record {
  name = c.name;
  config = with_defaults c;
  state = state_closed;
  failures = 0;
  successes = 0;
  last_failure = none;
  semaphore = 0;
  notified = [];
}

abbrev same_state : State → State → Bool
same_state state_closed state_closed = true
same_state state_half_open state_half_open = true
same_state state_open state_open = true
same_state _ _ = false

-- The part of `transitionToLocked` below the reset. Both loops that drain the semaphore leave the
-- function by `return`, so the callback is reached on the way to half-open alone.
settle : State → State → CircuitBreaker → CircuitBreaker
settle from state_open cb = record cb { semaphore = 0 }
settle from state_closed cb = record cb { semaphore = 0 }
settle from state_half_open cb =
    if cb.config.on_state_change
    then record cb { notified = (from, state_half_open) ∷ cb.notified }
    else cb

unfoldable pub transition_to_locked : State → CircuitBreaker → CircuitBreaker
unfolding settle
transition_to_locked to cb =
    if same_state cb.state to
    then cb
    else settle cb.state to (record cb { state = to; failures = 0; successes = 0 })

-- `time.Since`; the distance from the zero time saturates.
abbrev pub since : ℕ → Option ℕ → ℕ
since now none = max_int64
since now (some t) = now - t

-- The rest of `Allow` after it has read the state.
unfoldable pub allow_from : State → ℕ → CircuitBreaker → Option Err × CircuitBreaker
unfolding transition_to_locked
allow_from state_closed now cb = (none, cb)
allow_from state_open now cb =
    if leb cb.config.timeout (since now cb.last_failure)
    then (none, transition_to_locked state_half_open cb)
    else (some circuit_open, cb)
allow_from state_half_open now cb =
    if ltb cb.semaphore cb.config.max_concurrent_requests
    then (none, record cb { semaphore = cb.semaphore + 1 })
    else (some too_many_requests, cb)

unfoldable pub allow : ℕ → CircuitBreaker → Option Err × CircuitBreaker
unfolding allow_from
allow now cb = allow_from cb.state now cb

-- `none` where the receive blocks.
unfoldable pub release : CircuitBreaker → Option CircuitBreaker
release cb = if cb.semaphore == 0 then none else some (record cb { semaphore = cb.semaphore - 1 })

success_in : State → CircuitBreaker → CircuitBreaker
unfolding transition_to_locked
success_in state_half_open cb =
    let cb' = record cb { successes = cb.successes + 1 } in
    if leb cb'.config.success_threshold cb'.successes
    then transition_to_locked state_closed cb'
    else cb'
success_in state_closed cb = record cb { failures = 0 }
success_in state_open cb = cb

unfoldable pub record_success : CircuitBreaker → CircuitBreaker
unfolding success_in
record_success cb = success_in cb.state cb

failure_in : State → CircuitBreaker → CircuitBreaker
unfolding transition_to_locked
failure_in state_half_open cb = transition_to_locked state_open cb
failure_in state_closed cb =
    let cb' = record cb { failures = cb.failures + 1 } in
    if leb cb'.config.failure_threshold cb'.failures
    then transition_to_locked state_open cb'
    else cb'
failure_in state_open cb = cb

unfoldable pub record_failure : ℕ → CircuitBreaker → CircuitBreaker
unfolding failure_in
record_failure now cb = failure_in cb.state (record cb { last_failure = some now })

-- How a call of `Execute` ends: refused by `Allow`, with the error of `fn` (`none` for nil), or
-- stuck in the deferred `Release` with the breaker as it then is.
pub data Execution : Type 0 where
  refused : Err → CircuitBreaker → Execution
  finished : Option String → CircuitBreaker → Execution
  blocked : CircuitBreaker → Execution

abbrev deferred_release : Option String → CircuitBreaker → Execution
deferred_release e cb = elim (release cb) [ none ↦ blocked cb | some cb' ↦ finished e cb' ]

after_call : ℕ → Option String → CircuitBreaker → Execution
unfolding record_success record_failure release
after_call now none cb = deferred_release none (record_success cb)
after_call now (some e) cb = deferred_release (some e) (record_failure now cb)

admitted : ℕ → Option String → Option Err × CircuitBreaker → Execution
unfolding after_call
admitted done result (some e, cb) = refused e cb
admitted done result (none, cb) = after_call done result cb

-- `Execute`, where `fn` returns `result` at the time `done`.
unfoldable pub execute : ℕ → ℕ → Option String → CircuitBreaker → Execution
unfolding allow admitted
execute now done result cb = admitted done result (allow now cb)

pub record Stats : Type 0 where
  pub name : String
  pub state : String
  pub failures : ℕ
  pub successes : ℕ
  pub last_failure : Option ℕ

-- `(*CircuitBreaker).Stats`
unfoldable pub stats : CircuitBreaker → Stats
unfolding state_string
stats cb = record {
  name = cb.name;
  state = state_string cb.state;
  failures = cb.failures;
  successes = cb.successes;
  last_failure = cb.last_failure;
}
