-- ===== src/Hardening/CircuitBreaker/Recovery.antt =====
-- How an open circuit refuses, and how it closes again.
use lidenal85_blip.Hardening.CircuitBreaker.{returned, value}
use lidenal85_blip.Base.{All, ℕ, ◌+◌, ◌≤◌, ◌<◌, ◌≡◌, refl, some, List, [], ◌∷◌, arith}
use lidenal85_blip.Hardening.CircuitBreaker.{
  check_state, call, CircuitBreaker, CallResult, Outcome, closed, open_state, half_open, is_open,
  half_open_exhausted, rejected,
}
use lidenal85_blip.Hardening.CircuitBreaker.Invariant.{step, run, success, check}

module _ {ℓ} {A E : Type ℓ} where
  -- A sequence of calls, each with what its function would do and the two readings of the clock.
  unfoldable pub calls :
      List (Outcome A E × ℕ × ℕ) → CircuitBreaker → CircuitBreaker × List (CallResult A E)
  calls [] b = (b, [])
  calls ((f, now, later) ∷ rest) b =
      let (b', r) = call f now later b in let (b'', rs) = calls rest b' in (b'', r ∷ rs)

  -- every call of the sequence was answered by the breaker itself
  abbrev pub AllRejected : List (CallResult A E) → Type ℓ
  AllRejected rs = All (λ r. r ≡ rejected is_open) rs

  call_open :
      (f : Outcome A E) (now later failed : ℕ) (b : CircuitBreaker)
      → b.state ≡ open_state
      → b.last_failure_time ≡ some failed
      → now < failed + b.config.timeout_seconds
      → call f now later b ≡ (b, rejected is_open)
  unfolding call check_state
  call_open f now later failed b h e early = ground arith

  -- While fewer than `timeout_seconds` have passed since the last failure, an open breaker
  -- answers every call itself, calls no function and does not change.
  pub calls_open :
      (cs : List (Outcome A E × ℕ × ℕ)) (failed : ℕ) (b : CircuitBreaker)
      → b.state ≡ open_state
      → b.last_failure_time ≡ some failed
      → All (λ c. c.1 < failed + b.config.timeout_seconds) cs
      → ((calls cs b).0 ≡ b) × AllRejected (calls cs b).1
  unfolding calls
  calls_open [] failed b h e early = (refl, tt)
  calls_open ((f, now, later) ∷ cs) failed b h e early =
      rw (call_open f now later failed b h e early.0)
        (let (same, refused) = calls_open cs failed b h e early.1 in (same, (refl, refused)))

module _ {ℓ} (A E : Type ℓ) where
  -- calls whose functions return, and what they are answered
  abbrev pub returning : List (A × ℕ × ℕ) → List (Outcome A E × ℕ × ℕ)
  returning [] = []
  returning ((a, now, later) ∷ cs) = (value a, now, later) ∷ returning cs

  abbrev pub all_returned : List (A × ℕ × ℕ) → List (CallResult A E)
  all_returned [] = []
  all_returned ((a, now, later) ∷ cs) = returned a ∷ all_returned cs

  abbrev Recovers : CircuitBreaker → List (A × ℕ × ℕ) → Type ℓ
  Recovers b cs =
      ((calls (returning cs) b).0.state ≡ closed) × ((calls (returning cs) b).1 ≡ all_returned cs)

-- The successes counted in one half-open phase stay counted when that phase is exhausted: after
-- the timeout a single success then closes the circuit, however many the configuration asks for.
pub exhausted_keeps_successes :
    (t now failed : ℕ) (b : CircuitBreaker)
    → b.state ≡ half_open
    → b.config.half_open_max_attempts ≤ b.half_open_attempts
    → 0 < b.config.half_open_max_attempts
    → b.last_failure_time ≡ some failed
    → failed + b.config.timeout_seconds ≤ now
    → b.success_count + 1 ≡ b.config.success_threshold
    → ((check_state t b).1 ≡ some half_open_exhausted)
      × ((run (check t ∷ check now ∷ success ∷ []) b).state ≡ closed)
unfolding run step
exhausted_keeps_successes t now failed b h over pos e late almost = ground arith
