-- ===== src/Tests/Breaker.antt =====
-- The hardening circuit breaker's theorems at a small configuration.
use lidenal85_blip.Base.{ℕ, List}
use lidenal85_blip.Base.{none, some, [], ◌∷◌, arith}
use lidenal85_blip.Hardening.CircuitBreaker.{
  default_config, init, CircuitBreaker, closed, open_state,
}
use lidenal85_blip.Hardening.CircuitBreaker.Invariant.{
  run, run-IsValid, IsValid, check, failure, success, reset_event,
}

run-IsValid_example :
    IsValid (run (failure 3 ∷ check 70 ∷ success ∷ reset_event ∷ []) (init default_config))
run-IsValid_example =
    run-IsValid default_config (failure 3 ∷ check 70 ∷ success ∷ reset_event ∷ []) (omega arith)
      (omega arith)

abbrev new : CircuitBreaker
new = record {
  config = default_config;
  state = closed;
  failure_count = 0;
  success_count = 0;
  last_failure_time = none;
  half_open_attempts = 0;
}

abbrev tripped : CircuitBreaker
tripped = record new { state = open_state; failure_count = 5; last_failure_time = some 5 }

-- Two calls that return, long after one another.
abbrev two_calls : List (ℕ × ℕ × ℕ)
two_calls = (7, 65, 66) ∷ (8, 300, 301) ∷ []
