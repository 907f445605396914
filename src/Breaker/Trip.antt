-- ===== src/Breaker/Trip.antt =====
-- When a closed breaker trips.
use be_aether_node.Base.{
  ℕ, zero, suc, ◌+◌, ◌-◌, ◌≤◌, ◌<◌, ◌≡◌, refl, ◌↔◌, ◌⊎◌, inl, inr, ◌∙◌, Option, none, some, List,
  [], ◌∷◌, arith,
}
use be_aether_node.Breaker.{
  state_closed, state_open, Config, CircuitBreaker, new, record_success, record_failure,
}

-- The outcome of one call through the breaker: a success, or a failure at a time.
abbrev pub Outcome : Type 0
Outcome = Option ℕ

unfoldable pub record_outcome : Outcome → CircuitBreaker → CircuitBreaker
unfolding record_success record_failure
record_outcome none cb = record_success cb
record_outcome (some t) cb = record_failure t cb

unfoldable pub record_all : List Outcome → CircuitBreaker → CircuitBreaker
record_all [] cb = cb
record_all (o ∷ os) cb = record_all os (record_outcome o cb)

-- The next `k` outcomes are failures.
abbrev pub StartsWithFailures : ℕ → List Outcome → Type 0
StartsWithFailures zero os = Unit
StartsWithFailures (suc k) [] = ⊥
StartsWithFailures (suc k) (none ∷ os) = ⊥
StartsWithFailures (suc k) (some t ∷ os) = StartsWithFailures k os

-- Somewhere `k` outcomes in a row are failures.
abbrev pub HasFailureRun : ℕ → List Outcome → Type 0
HasFailureRun k [] = StartsWithFailures k []
HasFailureRun k (o ∷ os) = StartsWithFailures k (o ∷ os) ⊎ HasFailureRun k os

run_of_start : (k : ℕ) (os : List Outcome) → StartsWithFailures k os → HasFailureRun k os
run_of_start k [] h = h
run_of_start k (o ∷ os) h = inl h

fewer_failures :
    (j k : ℕ) (os : List Outcome) → k ≤ j → StartsWithFailures j os → StartsWithFailures k os
fewer_failures j zero os le h = tt
fewer_failures zero (suc k) os le h = absurd (omega arith)
fewer_failures (suc j) (suc k) (some t ∷ os) le h = fewer_failures j k os (omega arith) h
fewer_failures (suc j) (suc k) (none ∷ os) le h = h
fewer_failures (suc j) (suc k) [] le h = h

open_stays :
    (os : List Outcome) (cb : CircuitBreaker)
    → cb.state ≡ state_open
    → (record_all os cb).state ≡ state_open
unfolding record_all
open_stays [] cb e = e
open_stays (o ∷ os) cb e =
    open_stays os (record_outcome o cb) (unfold record_outcome in ground arith)

closed_success :
    (cb : CircuitBreaker)
    → cb.state ≡ state_closed
    → let cb' = record_outcome none cb in
      (cb'.state ≡ state_closed) × (cb'.failures ≡ 0) × (cb'.config ≡ cb.config)
unfolding record_outcome
closed_success cb c = ground arith

closed_last_failure :
    (t : ℕ) (cb : CircuitBreaker)
    → cb.state ≡ state_closed
    → cb.config.failure_threshold ≡ suc cb.failures
    → (record_outcome (some t) cb).state ≡ state_open
unfolding record_outcome
closed_last_failure t cb c e = ground arith

closed_failure :
    (t : ℕ) (cb : CircuitBreaker)
    → cb.state ≡ state_closed
    → suc cb.failures < cb.config.failure_threshold
    → let cb' = record_outcome (some t) cb in
      (cb'.state ≡ state_closed) × (cb'.failures ≡ suc cb.failures) × (cb'.config ≡ cb.config)
unfolding record_outcome
closed_failure t cb c e = ground arith

-- A closed breaker that lacks `k + 1` failures trips exactly if the next `k + 1` outcomes are
-- failures, or later as many in a row as the threshold.
closed_trips_iff :
    (os : List Outcome) (m k : ℕ) (cb : CircuitBreaker)
    → cb.state ≡ state_closed
    → cb.config.failure_threshold ≡ suc m
    → cb.failures + k ≡ m
    → ((record_all os cb).state ≡ state_open)
      ↔ (StartsWithFailures (suc k) os ⊎ HasFailureRun (suc m) os)
unfolding record_all
closed_trips_iff [] m k cb c e f = (λ o. cc, λ h. elim h [ inl n ↦ absurd n | inr n ↦ absurd n ])
closed_trips_iff (none ∷ os) m k cb c e f =
    let (c', f', same) = closed_success cb c in
    let ih = closed_trips_iff os m m (record_outcome none cb) c' (rw same e) (omega arith) in
    (
      λ o. elim (ih.0 o) [ inl s ↦ inr (inr (run_of_start (suc m) os s)) | inr r ↦ inr (inr r) ],
      λ h. elim h [ inl n ↦ absurd n | inr r ↦ ih.1 (elim r [ inl n ↦ absurd n | inr q ↦ inr q ]) ],
    )
closed_trips_iff (some t ∷ os) m zero cb c e f = (
  λ _. inl tt,
  λ _. open_stays os (record_outcome (some t) cb) (closed_last_failure t cb c (omega arith)),
)
closed_trips_iff (some t ∷ os) m (suc k) cb c e f =
    let (c', f', same) = closed_failure t cb c (omega arith) in
    let ih = closed_trips_iff os m k (record_outcome (some t) cb) c' (rw same e) (omega arith) in
    (
      λ o. elim (ih.0 o) [ inl s ↦ inl s | inr r ↦ inr (inr r) ],
      λ h. ih.1 (elim h [
        | inl s ↦ inl s
        | inr r ↦ elim r [
          | inl s ↦ inl (fewer_failures m (suc k) os (omega arith) s)
          | inr q ↦ inr q
        ]
      ]),
    )

outcome_two_states :
    (o : Outcome) (cb : CircuitBreaker)
    → (cb.state ≡ state_open) ⊎ (cb.state ≡ state_closed)
    → ((record_outcome o cb).state ≡ state_open) ⊎ ((record_outcome o cb).state ≡ state_closed)
unfolding record_outcome
outcome_two_states o cb h = ground arith

all_two_states :
    (os : List Outcome) (cb : CircuitBreaker)
    → (cb.state ≡ state_open) ⊎ (cb.state ≡ state_closed)
    → ((record_all os cb).state ≡ state_open) ⊎ ((record_all os cb).state ≡ state_closed)
unfolding record_all
all_two_states [] cb h = h
all_two_states (o ∷ os) cb h = all_two_states os (record_outcome o cb) (outcome_two_states o cb h)

trips_iff_of_fresh :
    (os : List Outcome) (n m : ℕ) (cb : CircuitBreaker)
    → cb.state ≡ state_closed
    → cb.failures ≡ 0
    → cb.config.failure_threshold ≡ n
    → n ≡ suc m
    → ((record_all os cb).state ≡ state_open) ↔ HasFailureRun n os
trips_iff_of_fresh os n m cb c f t e =
    let trip = closed_trips_iff os m m cb c (t ∙ e) (omega arith) in
    rw e
      (λ o. elim (trip.0 o) [ inl s ↦ run_of_start (suc m) os s | inr r ↦ r ], λ r. trip.1 (inr r))

new_threshold_pos :
    (c : Config) → (new c).config.failure_threshold ≡ suc ((new c).config.failure_threshold - 1)
unfolding new
new_threshold_pos c = ground arith

-- A breaker made by `New` is open after a series of outcomes exactly if the series has, somewhere,
-- as many failures in a row as the failure threshold; otherwise it is closed.
pub trips_iff :
    (c : Config) (os : List Outcome)
    → let cb = record_all os (new c) in
      ((cb.state ≡ state_open) ↔ HasFailureRun (new c).config.failure_threshold os)
      × ((cb.state ≡ state_open) ⊎ (cb.state ≡ state_closed))
trips_iff c os = (
  trips_iff_of_fresh os _ _ (new c) (unfold new in refl) (unfold new in refl) refl
      (new_threshold_pos c),
  all_two_states os (new c) (inr (unfold new in refl)),
)
