-- ===== src/Hardening/CircuitBreaker/Invariant.antt =====
-- What holds of a breaker after any sequence of its steps, in whatever order threads make them.
use lidenal85_blip.Base.{
  length, dec_lt, ℕ, ◌+◌, ◌≤◌, ◌<◌, ◌≡◌, refl, sym, ap, ◌∙◌, ◌≢◌, ◌↔◌, none, List, [], ◌∷◌, arith,
}
use lidenal85_blip.Hardening.CircuitBreaker.{
  check_state, record_success, record_failure, reset, CircuitBreaker, closed, init,
  CircuitBreakerConfig, open_state,
}

pub data Event : Type 0 where
  check failure : ℕ → Event
  success reset_event : Event

unfoldable pub step : Event → CircuitBreaker → CircuitBreaker
unfolding check_state record_failure record_success reset
step (check t) b = (check_state t b).0
step (failure t) b = record_failure t b
step success b = record_success b
step reset_event b = reset b

unfoldable pub run : List Event → CircuitBreaker → CircuitBreaker
run [] b = b
run (e ∷ es) b = run es (step e b)

pub record IsValid (b : CircuitBreaker) : Type 0 where
  pub closed_below : b.state ≡ closed → b.failure_count < b.config.failure_threshold
  pub closed_zero : b.state ≡ closed → b.success_count ≡ 0
  pub successes_below : b.success_count < b.config.success_threshold
  pub failed_once : b.state ≢ closed → b.last_failure_time ≢ none

pub step-IsValid :
    (e : Event) (b : CircuitBreaker)
    → 0 < b.config.failure_threshold
    → IsValid b
    → IsValid (step e b)
unfolding step
step-IsValid (check t) b pos h = ground arith
step-IsValid (failure t) b pos h = ground arith
step-IsValid success b pos h = ground arith
step-IsValid reset_event b pos h = ground arith

pub config-step : (e : Event) (b : CircuitBreaker) → (step e b).config ≡ b.config
unfolding step
config-step (check t) b = ground arith
config-step (failure t) b = ground arith
config-step success b = ground arith
config-step reset_event b = refl

run_keeps :
    (c : CircuitBreakerConfig) (es : List Event) (b : CircuitBreaker)
    → 0 < c.failure_threshold
    → b.config ≡ c
    → IsValid b
    → IsValid (run es b) × ((run es b).config ≡ c)
unfolding run
run_keeps c [] b pos same h = (h, same)
run_keeps c (e ∷ es) b pos same h = run_keeps c es (step e b) pos (config-step e b ∙ same) (
    step-IsValid e b (omega (arith, ap (λ (d : CircuitBreakerConfig). d.failure_threshold) same)) h)

-- After any sequence of checks, successes, failures and resets of a new breaker with positive
-- thresholds: in the state CLOSED fewer failures are counted than open the circuit and no success
-- is counted; fewer successes are counted than close it; and outside CLOSED a failure time is
-- known.
pub run-IsValid :
    (c : CircuitBreakerConfig) (es : List Event)
    → 0 < c.failure_threshold
    → 0 < c.success_threshold
    → IsValid (run es (init c))
unfolding init
run-IsValid c es fail_pos succ_pos = (run_keeps c es (init c) fail_pos refl (ground arith)).0

failure_closed :
    (t : ℕ) (b : CircuitBreaker)
    → b.state ≡ closed
    → ((step (failure t) b).failure_count ≡ b.failure_count + 1)
      × ((b.failure_count + 1 < b.config.failure_threshold) → (step (failure t) b).state ≡ closed)
      × ((b.config.failure_threshold ≤ b.failure_count + 1)
          → (step (failure t) b).state ≡ open_state)
unfolding step
failure_closed t b h = ground arith

failure_open :
    (t : ℕ) (b : CircuitBreaker) → b.state ≡ open_state → (step (failure t) b).state ≡ open_state
unfolding step
failure_open t b h = ground arith

-- The failures at the given times, with nothing between them.
unfoldable pub failures : List ℕ → List Event
failures [] = []
failures (t ∷ ts) = failure t ∷ failures ts

stays_open :
    (ts : List ℕ) (b : CircuitBreaker)
    → b.state ≡ open_state
    → (run (failures ts) b).state ≡ open_state
unfolding run failures
stays_open [] b h = h
stays_open (t ∷ ts) b h = stays_open ts (step (failure t) b) (failure_open t b h)

closed-ne-open : closed ≢ open_state
closed-ne-open h = cc

failures_phases :
    (ts : List ℕ) (b : CircuitBreaker)
    → b.state ≡ closed
    → b.failure_count < b.config.failure_threshold
    → ((b.config.failure_threshold ≤ b.failure_count + length ts)
        → (run (failures ts) b).state ≡ open_state)
      × ((b.failure_count + length ts < b.config.failure_threshold)
          → (run (failures ts) b).state ≡ closed)
unfolding run failures
failures_phases [] b h below = (λ reach. absurd (omega arith), λ _. h)
failures_phases (t ∷ ts) b h below =
    let (one_more, stay, trip) = failure_closed t b h in
    let same : (step (failure t) b).config ≡ b.config = config-step (failure t) b in
    elim (dec_lt (b.failure_count + 1) b.config.failure_threshold) [
      | yes low ↦
          let next = failures_phases ts (step (failure t) b) (stay low) (grind arith) in
          (λ reach. next.0 (grind arith), λ few. next.1 (grind arith))
      | no high ↦ (
        λ reach. stays_open ts (step (failure t) b) (trip (omega arith)),
        λ few. absurd (omega arith),
      )
    ]

-- In the state CLOSED, with a count below the threshold, a row of failures opens the circuit
-- exactly when it brings the count to the threshold.
pub failures_trip :
    (ts : List ℕ) (b : CircuitBreaker)
    → b.state ≡ closed
    → b.failure_count < b.config.failure_threshold
    → ((run (failures ts) b).state ≡ open_state)
      ↔ (b.config.failure_threshold ≤ b.failure_count + length ts)
failures_trip ts b h below =
    let phases = failures_phases ts b h below in
    elim (dec_lt (b.failure_count + length ts) b.config.failure_threshold) [
      | yes few ↦ (
        λ opened. absurd (closed-ne-open (sym (phases.1 few) ∙ opened)),
        λ reach. absurd (omega arith),
      )
      | no many ↦ (λ _. omega arith, phases.0)
    ]
