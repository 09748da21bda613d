-- ===== src/Runtime/CircuitBreaker.antt =====
-- runtime/circuit_breaker.py: the breaker of the wrapped adapters, with one lock and no limit on
-- the calls that it lets through half open.
use lidenal85_blip.Base.{
  ltb, leb, if◌then◌else◌, ℕ, ◌+◌, ◌≤◌, ◌<◌, ◌≡◌, refl, ◌∙◌, ◌≢◌, Bool, true, false, List, [], ◌∷◌,
  arith,
}

pub data BreakerState : Type 0 where
  closed open_state half_open : BreakerState

pub record CircuitBreaker : Type 0 where
  pub failure_threshold : ℕ
  pub reset_timeout : ℕ
  pub failures : ℕ
  pub opened_at : ℕ
  pub state : BreakerState

unfoldable pub init : ℕ → ℕ → CircuitBreaker
init failure_threshold reset_timeout = record {
  failure_threshold = failure_threshold;
  reset_timeout = reset_timeout;
  failures = 0;
  opened_at = 0;
  state = closed;
}

allow_from : BreakerState → ℕ → CircuitBreaker → CircuitBreaker × Bool
allow_from open_state now b =
    if ltb (b.opened_at + b.reset_timeout) now
    then (record b { state = half_open }, true)
    else (b, false)
allow_from _ now b = (b, true)

unfoldable pub allow : ℕ → CircuitBreaker → CircuitBreaker × Bool
unfolding allow_from
allow now b = allow_from b.state now b

unfoldable pub success : CircuitBreaker → CircuitBreaker
success b = record b { failures = 0; state = closed }

unfoldable pub failure : ℕ → CircuitBreaker → CircuitBreaker
failure now b =
    let b' = record b { failures = b.failures + 1 } in
    if leb b.failure_threshold b'.failures
    then record b' { state = open_state; opened_at = now }
    else b'

pub data Event : Type 0 where
  allow_event failure_event : ℕ → Event
  success_event : Event

unfoldable pub step : Event → CircuitBreaker → CircuitBreaker
unfolding allow success failure
step (allow_event t) b = (allow t b).0
step (failure_event t) b = failure t b
step success_event b = success b

unfoldable pub run : List Event → CircuitBreaker → CircuitBreaker
run [] b = b
run (e ∷ es) b = run es (step e b)

-- The circuit is closed exactly while fewer failures are counted than open it.
pub record IsValid (b : CircuitBreaker) : Type 0 where
  pub closed_below : b.state ≡ closed → b.failures < b.failure_threshold
  pub tripped : b.state ≢ closed → b.failure_threshold ≤ b.failures

step-IsValid :
    (e : Event) (b : CircuitBreaker)
    → 0 < b.failure_threshold
    → IsValid b
    → IsValid (step e b) × ((step e b).failure_threshold ≡ b.failure_threshold)
unfolding step
step-IsValid (allow_event t) b pos h = ground arith
step-IsValid (failure_event t) b pos h = ground arith
step-IsValid success_event b pos h = ground arith

run_keeps :
    (n : ℕ) (es : List Event) (b : CircuitBreaker)
    → 0 < n
    → b.failure_threshold ≡ n
    → IsValid b
    → IsValid (run es b)
unfolding run
run_keeps n [] b pos same h = h
run_keeps n (e ∷ es) b pos same h =
    let (h', same') = step-IsValid e b (omega arith) h in
    run_keeps n es (step e b) pos (same' ∙ same) h'

-- After any sequence of calls of a new breaker with a positive threshold, the circuit is closed
-- exactly when fewer failures are counted than the threshold.
pub run-IsValid :
    (threshold timeout : ℕ) (es : List Event)
    → 0 < threshold
    → IsValid (run es (init threshold timeout))
unfolding init
run-IsValid threshold timeout es pos =
    run_keeps threshold es (init threshold timeout) pos refl (ground arith)

-- A half-open circuit opens again at the first failure, and for a whole timeout it then lets
-- nothing through.
pub half_open_reopens :
    (t u : ℕ) (b : CircuitBreaker)
    → IsValid b
    → b.state ≡ half_open
    → u ≤ t + b.reset_timeout
    → ((step (failure_event t) b).state ≡ open_state)
      × (allow u (step (failure_event t) b) ≡ (step (failure_event t) b, false))
unfolding step
half_open_reopens t u b v h early = ground arith
