-- ===== src/Hardening/CircuitBreaker.antt =====
-- hardening/circuit_breaker.py: the breaker that guards the adapters' calls. `datetime.utcnow()`
-- is an argument, in the unit of `timeout_seconds`. Each method under the lock is one step, so
-- threads and tasks are sequences of the steps; log lines are left out.
pub mod Invariant
pub mod Recovery
use lidenal85_blip.Base.{leb, if◌then◌else◌, ℕ, ◌+◌, Bool, true, false, ◌&&◌, Option, none, some}

pub data CircuitState : Type 0 where
  closed open_state half_open : CircuitState

pub record CircuitBreakerConfig : Type 0 where
  pub failure_threshold : ℕ
  pub timeout_seconds : ℕ
  pub half_open_max_attempts : ℕ
  pub success_threshold : ℕ

abbrev pub default_config : CircuitBreakerConfig
default_config = record {
  failure_threshold = 5;
  timeout_seconds = 60;
  half_open_max_attempts = 3;
  success_threshold = 2;
}

-- The two `CircuitBreakerOpenError`s.
pub data OpenError : Type 0 where
  is_open half_open_exhausted : OpenError

pub record CircuitBreaker : Type 0 where
  pub config : CircuitBreakerConfig
  pub state : CircuitState
  pub failure_count : ℕ
  pub success_count : ℕ
  pub last_failure_time : Option ℕ
  pub half_open_attempts : ℕ

unfoldable pub init : CircuitBreakerConfig → CircuitBreaker
init config = record {
  config = config;
  state = closed;
  failure_count = 0;
  success_count = 0;
  last_failure_time = none;
  half_open_attempts = 0;
}

-- the first `if` of `_check_state`, in the state OPEN
check_open : ℕ → Option ℕ → CircuitBreaker → CircuitBreaker × Option OpenError
check_open now none b = (b, none)
check_open now (some failed) b =
    if leb (failed + b.config.timeout_seconds) now
    then (record b { state = half_open; half_open_attempts = 0 }, none)
    else (b, some is_open)

abbrev is_half_open : CircuitState → Bool
is_half_open half_open = true
is_half_open _ = false

-- the second `if`
check_half_open : CircuitBreaker → CircuitBreaker × Option OpenError
check_half_open b =
    if is_half_open b.state && leb b.config.half_open_max_attempts b.half_open_attempts
    then (record b { state = open_state }, some half_open_exhausted)
    else (b, none)

abbrev after_first : CircuitBreaker × Option OpenError → CircuitBreaker × Option OpenError
after_first (b, some e) = (b, some e)
after_first (b, none) = check_half_open b

check_from : CircuitState → ℕ → CircuitBreaker → CircuitBreaker × Option OpenError
check_from open_state now b = after_first (check_open now b.last_failure_time b)
check_from _ now b = check_half_open b

unfoldable pub check_state : ℕ → CircuitBreaker → CircuitBreaker × Option OpenError
unfolding check_open check_half_open check_from
check_state now b = check_from b.state now b

success_from : CircuitState → CircuitBreaker → CircuitBreaker
success_from half_open b =
    let b' = record b { success_count = b.success_count + 1 } in
    if leb b.config.success_threshold b'.success_count
    then record b' { state = closed; failure_count = 0; success_count = 0; half_open_attempts = 0 }
    else b'
success_from _ b = record b { failure_count = 0; success_count = 0 }

unfoldable pub record_success : CircuitBreaker → CircuitBreaker
unfolding success_from
record_success b = success_from b.state b

failure_from : CircuitState → CircuitBreaker → CircuitBreaker
failure_from half_open b = record b { half_open_attempts = b.half_open_attempts + 1 }
failure_from closed b =
    if leb b.config.failure_threshold b.failure_count then record b { state = open_state } else b
failure_from open_state b = b

unfoldable pub record_failure : ℕ → CircuitBreaker → CircuitBreaker
unfolding failure_from
record_failure now b =
    failure_from b.state
      (record b { failure_count = b.failure_count + 1; last_failure_time = some now })

unfoldable pub reset : CircuitBreaker → CircuitBreaker
reset b = record b {
  state = closed;
  failure_count = 0;
  success_count = 0;
  half_open_attempts = 0;
  last_failure_time = none;
}

-- How `call` and `async_call` end: with the function's result, with the function's exception, or
-- with the breaker's own and the function not called.
pub data CallResult {ℓ} (A E : Type ℓ) : Type ℓ where
  returned : A → CallResult A E
  raised : E → CallResult A E
  rejected : OpenError → CallResult A E

-- What the guarded function does: return or raise.
pub data Outcome {ℓ} (A E : Type ℓ) : Type ℓ where
  value : A → Outcome A E
  exception : E → Outcome A E

module _ {ℓ} {A E : Type ℓ} where
  finish : Outcome A E → ℕ → CircuitBreaker → CircuitBreaker × CallResult A E
  finish (value a) later b = (record_success b, returned a)
  finish (exception e) later b = (record_failure later b, raised e)

  guarded : CircuitBreaker × Option OpenError → Outcome A E → ℕ → CircuitBreaker × CallResult A E
  guarded (b, some e) func later = (b, rejected e)
  guarded (b, none) func later = finish func later b

  -- `call` and, with nothing between its steps, `async_call`; the clock is read at the check and
  -- after a failure
  unfoldable pub call : Outcome A E → ℕ → ℕ → CircuitBreaker → CircuitBreaker × CallResult A E
  unfolding finish guarded
  call func now later b = guarded (check_state now b) func later
