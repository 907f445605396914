-- ===== src/Breaker/Recovery.antt =====
-- How an open breaker recovers, and what a failure does to one that is half-open or at the
-- threshold.
use be_aether_node.Base.{ℕ, zero, suc, ◌+◌, ◌≤◌, ◌<◌, ◌≡◌, refl, ap, ◌∙◌, ◌⊎◌, none, some, arith}
use be_aether_node.Breaker.{
  state_closed, state_half_open, state_open, circuit_open, CircuitBreaker, since, allow,
  record_success, record_failure,
}

-- `n` successes in a row.
unfoldable pub succeed : ℕ → CircuitBreaker → CircuitBreaker
succeed zero cb = cb
succeed (suc n) cb = record_success (succeed n cb)

record_success_config : (cb : CircuitBreaker) → (record_success cb).config ≡ cb.config
unfolding record_success
record_success_config cb = ground arith

succeed_config : (n : ℕ) (cb : CircuitBreaker) → (succeed n cb).config ≡ cb.config
unfolding succeed
succeed_config zero cb = refl
succeed_config (suc n) cb = record_success_config (succeed n cb) ∙ succeed_config n cb

half_open_success :
    (n m : ℕ) (cb : CircuitBreaker)
    → cb.state ≡ state_half_open
    → cb.successes ≡ n
    → cb.config.success_threshold ≡ m
    → let cb' = record_success cb in
      (suc n < m → (cb'.state ≡ state_half_open) × (cb'.successes ≡ suc n))
      × (suc n ≡ m → (cb'.state ≡ state_closed) × (cb'.failures ≡ 0))
unfolding record_success
half_open_success n m cb h e t = (λ l. ground arith, λ l. ground arith)

probing :
    (n m : ℕ) (cb : CircuitBreaker)
    → cb.state ≡ state_half_open
    → cb.successes ≡ 0
    → cb.config.success_threshold ≡ m
    → n < m
    → ((succeed n cb).state ≡ state_half_open) × ((succeed n cb).successes ≡ n)
unfolding succeed
probing zero m cb h z t l = (h, z)
probing (suc n) m cb h z t l =
    let (h', e) = probing n m cb h z t (omega arith) in
    (half_open_success n m (succeed n cb) h' e
        (ap (λ c. c.success_threshold) (succeed_config n cb) ∙ t)).0
      l

half_opens :
    (now : ℕ) (cb : CircuitBreaker)
    → cb.state ≡ state_open
    → cb.config.timeout ≤ since now cb.last_failure
    → let (e, cb') = allow now cb in
      (e ≡ none) × (cb'.state ≡ state_half_open) × (cb'.successes ≡ 0) × (cb'.config ≡ cb.config)
unfolding allow
half_opens now cb o l = ground arith

-- An open breaker whose timeout has passed lets the next call through and is half-open; it stays
-- so for fewer successes than the success threshold, and is closed with no failure counted by
-- exactly that many.
pub recovers :
    (now n : ℕ) (cb : CircuitBreaker)
    → cb.state ≡ state_open
    → cb.config.timeout ≤ since now cb.last_failure
    → let (e, cb') = allow now cb in
      (e ≡ none)
      × (n < cb.config.success_threshold → (succeed n cb').state ≡ state_half_open)
      × (suc n ≡ cb.config.success_threshold
          → ((succeed (suc n) cb').state ≡ state_closed) × ((succeed (suc n) cb').failures ≡ 0))
unfolding succeed
recovers now n cb o l =
    let (e, h, z, c) = half_opens now cb o l in
    let cb' = (allow now cb).1 in
    let t = ap (λ c. c.success_threshold) c in
    let pr = probing n _ cb' h z t in
    (
      e,
      λ m. (pr m).0,
      λ m.
          (half_open_success n _ (succeed n cb') (pr (omega arith)).0 (pr (omega arith)).1
              (ap (λ c. c.success_threshold) (succeed_config n cb') ∙ t)).1
            m,
    )

-- A failure at the time `t`, of a half-open breaker or of a closed one that lacks one failure,
-- opens it; from then on, until `timeout` has passed from `t`, it refuses every call and does not
-- change.
pub failure_refuses :
    (t now : ℕ) (cb : CircuitBreaker)
    → (cb.state ≡ state_half_open)
      ⊎ ((cb.state ≡ state_closed) × (suc cb.failures ≡ cb.config.failure_threshold))
    → t ≤ now
    → now < t + cb.config.timeout
    → let cb' = record_failure t cb in allow now cb' ≡ (some circuit_open, cb')
unfolding record_failure allow
failure_refuses t now cb h le l = ground arith
