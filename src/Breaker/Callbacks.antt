-- ===== src/Breaker/Callbacks.antt =====
-- The calls of `OnStateChange`.
use be_aether_node.Base.{◌≡◌, List, [], ◌∷◌, All, arith}
use be_aether_node.Breaker.{State, state_half_open, Config, CircuitBreaker, new}
use be_aether_node.Breaker.Invariant.{Call, call, run_calls}

abbrev pub ToHalfOpen : List (State × State) → Type 0
ToHalfOpen = All (λ c. c.1 ≡ state_half_open)

call_notifies :
    (c : Call) (cb : CircuitBreaker) → ToHalfOpen cb.notified → ToHalfOpen (call c cb).notified
unfolding call
call_notifies c cb h = ground arith

run_calls_notifies :
    (cs : List Call) (cb : CircuitBreaker)
    → ToHalfOpen cb.notified
    → ToHalfOpen (run_calls cs cb).notified
unfolding run_calls
run_calls_notifies [] cb h = h
run_calls_notifies (c ∷ cs) cb h = run_calls_notifies cs (call c cb) (call_notifies c cb h)

-- Over every series of calls on a breaker made by `New`, the callback is called for changes to the
-- half-open state alone: it is never told that the breaker has opened or closed.
pub notified_half_open : (c : Config) (cs : List Call) → ToHalfOpen (run_calls cs (new c)).notified
notified_half_open c cs = run_calls_notifies cs (new c) (unfold new in tt)
