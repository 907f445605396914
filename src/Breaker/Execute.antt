-- ===== src/Breaker/Execute.antt =====
-- When a call through `Execute` comes back: the deferred `Release` receives from a channel into which
-- `Allow` sends in the half-open state alone, and which a transition has emptied.
use be_aether_node.Base.{ℕ, ◌+◌, ◌≤◌, ◌<◌, ◌≡◌, ◌↔◌, ◌⊎◌, String, Option, none, arith}
use be_aether_node.Breaker.{
  state_half_open, state_open, Config, CircuitBreaker, new, since, Execution, refused, finished,
  blocked, execute,
}
use be_aether_node.Breaker.Invariant.{IsDrained}

abbrev pub Returns : Execution → Type 0
Returns (refused _ _) = Unit
Returns (finished _ _) = Unit
Returns (blocked _) = ⊥

abbrev pub ComesBack : ℕ → Option String → CircuitBreaker → Type 0
ComesBack now result cb =
    ((cb.state ≡ state_open) × (since now cb.last_failure < cb.config.timeout))
    ⊎ ((cb.state ≡ state_half_open) × (cb.config.max_concurrent_requests ≤ cb.semaphore))
    ⊎ ((cb.state ≡ state_half_open)
        × (cb.semaphore < cb.config.max_concurrent_requests)
        × (result ≡ none)
        × (cb.successes + 1 < cb.config.success_threshold))

-- While slots are held in the half-open state alone, `Execute` comes back exactly when the breaker
-- is open and its timeout has not passed, or it is half-open and full, or it is half-open with a
-- free slot, the function succeeds and this success does not reach the threshold. In every other
-- case, each call in the closed state among them, the deferred `Release` blocks.
pub execute-Returns_iff :
    (now done : ℕ) (result : Option String) (cb : CircuitBreaker)
    → IsDrained cb
    → Returns (execute now done result cb) ↔ ComesBack now result cb
unfolding execute
execute-Returns_iff now done result cb d = (λ r. ground arith, λ r. ground arith)

-- The first call of `Execute` on a breaker made by `New` never comes back, whatever the
-- configuration and whether the function fails or succeeds.
pub execute-new_blocks :
    (c : Config) (now done : ℕ) (result : Option String)
    → ¬ Returns (execute now done result (new c))
unfolding execute new
execute-new_blocks c now done result r = ground arith
