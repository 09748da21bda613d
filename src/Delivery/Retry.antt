-- ===== src/Delivery/Retry.antt =====
-- delivery/retry.py: the retry policy and its executor. An attempt of the operation is its
-- outcome; the attempts are the function `attempts` of the attempt's number. A delay is in the
-- unit of `base_delay_seconds`; the random factor of the jitter, in [0.5, 1), is read in parts of
-- 2000.
use native.Mathlib.Nat.{mul-le-mul_left}
use lidenal85_blip.Base.{
  leb, Bool-cases, if◌then◌else◌, ℕ, zero, suc, ◌+◌, ◌*◌, ◌^◌, ◌≤◌, ◌<◌, String, ◌≡◌, inl, inr,
  Bool, true, false, Option, none, some, arith,
}

pub record RetryConfig : Type 0 where
  pub max_attempts : ℕ
  pub base_delay_seconds : ℕ
  pub max_delay_seconds : ℕ
  pub jitter : Bool

abbrev pub default_config : RetryConfig
default_config = record {
  max_attempts = 3;
  base_delay_seconds = 2;
  max_delay_seconds = 60;
  jitter = true;
}

-- What an exception is asked about: whether it is a ValueError, whether its text holds "403" or
-- "Forbidden", and its text.
pub record Failure : Type 0 where
  pub is_value_error : Bool
  pub is_forbidden : Bool
  pub message : String

pub data Attempt {ℓ} (A : Type ℓ) : Type ℓ where
  returned : A → Attempt A
  failed : Failure → Attempt A

smaller : ℕ → ℕ → ℕ
smaller a b = if leb a b then a else b

-- `get_delay`, in parts of 2000; `draw` is what `random.random()` answers, in parts of 1000
unfoldable pub get_delay : RetryConfig → ℕ → ℕ → ℕ
unfolding smaller
get_delay c draw attempt =
    let delay = smaller (c.base_delay_seconds * 2 ^ attempt) c.max_delay_seconds in
    if c.jitter then delay * (1000 + draw) else delay * 2000

unfoldable pub should_retry : RetryConfig → ℕ → Failure → Bool
should_retry c attempt e =
    if leb c.max_attempts attempt
    then false
    else if e.is_value_error
    then false
    else if e.is_forbidden
    then false
    else true

-- How `execute` ends, with the attempts that it made.
pub record Execution {ℓ} (A : Type ℓ) : Type ℓ where
  pub outcome : Attempt A
  pub attempts_made : ℕ

-- Whether the loop goes on after the attempt numbered `attempt`.
unfoldable pub goes_on {ℓ} : {A : Type ℓ} → RetryConfig → ℕ → Attempt A → Bool
goes_on c attempt (returned a) = false
goes_on c attempt (failed e) = should_retry c (attempt + 1) e

-- The `while True` loop, from the attempt `attempt`. Fuel is the turns left.
unfoldable pub loop {ℓ} :
    {A : Type ℓ} → RetryConfig → (ℕ → Attempt A) → ℕ → ℕ → Option (Execution A)
unfolding goes_on
loop c attempts attempt zero = none
loop c attempts attempt (suc fuel) =
    let rest = loop c attempts (attempt + 1) fuel in
    if goes_on c attempt (attempts attempt)
    then rest
    else some (record { outcome = attempts attempt; attempts_made = attempt + 1 })

-- One attempt is made in any case.
unfoldable pub execute {ℓ} : {A : Type ℓ} → RetryConfig → (ℕ → Attempt A) → Option (Execution A)
unfolding loop
execute c attempts = loop c attempts 0 (c.max_attempts + 1)

-- The attempts numbered from `a` to `a + n`, the last excluded, were all retried.
pub Retried {ℓ} : {A : Type ℓ} → RetryConfig → (ℕ → Attempt A) → ℕ → ℕ → Type 0
Retried c attempts a zero = Unit
Retried c attempts a (suc n) = (goes_on c a (attempts a) ≡ true) × Retried c attempts (a + 1) n

goes_on_early {ℓ} :
    {A : Type ℓ} (c : RetryConfig) (a : ℕ) (t : Attempt A)
    → goes_on c a t ≡ true
    → a + 1 < c.max_attempts
unfolding goes_on should_retry
goes_on_early c a (failed e) h = ground arith
goes_on_early c a (returned x) h = ground arith

loop_lem {ℓ} :
    {A : Type ℓ} (c : RetryConfig) (attempts : ℕ → Attempt A) (a fuel : ℕ)
    → c.max_attempts < a + fuel
    → a < c.max_attempts
    → (k : ℕ) × (last : ℕ) × (last ≡ a + k)
      × (last < c.max_attempts)
      × Retried c attempts a k
      × (goes_on c last (attempts last) ≡ false)
      × (loop c attempts a fuel
          ≡ some (record { outcome = attempts last; attempts_made = last + 1 }))
unfolding loop Retried
loop_lem c attempts a zero h low = absurd (omega arith)
loop_lem c attempts a (suc fuel) h low = elim (Bool-cases (goes_on c a (attempts a))) [
  | inl on ↦
      let early = goes_on_early c a (attempts a) on in
      let (k, last, place, few, again, ends, e) =
        loop_lem c attempts (a + 1) fuel (omega arith) early in
      (suc k, last, omega arith, few, (on, again), ends, ground arith)
  | inr off ↦ (0, a, omega arith, low, tt, off, ground arith)
]

-- When at least one attempt is allowed, `execute` ends after a last attempt that is one of those
-- allowed: every attempt before it failed and was retried, it is not retried, and its result is
-- the result, the error of the last attempt included.
pub execute_ends {ℓ} :
    {A : Type ℓ} (c : RetryConfig) (attempts : ℕ → Attempt A)
    → 0 < c.max_attempts
    → (last : ℕ) × (last < c.max_attempts)
      × Retried c attempts 0 last
      × (goes_on c last (attempts last) ≡ false)
      × (execute c attempts ≡ some (record { outcome = attempts last; attempts_made = last + 1 }))
unfolding execute
execute_ends c attempts pos =
    let (k, last, place, few, again, ends, e) =
      loop_lem c attempts 0 (c.max_attempts + 1) (omega arith) pos in
    let same : last ≡ k = omega arith in (last, few, rw same again, ends, e)

-- The delay before a retry is at most `max_delay_seconds`, with the jitter and without.
pub get_delay_le :
    (c : RetryConfig) (draw attempt : ℕ)
    → draw < 1000
    → get_delay c draw attempt ≤ c.max_delay_seconds * 2000
unfolding get_delay smaller
get_delay_le c draw attempt h =
    let delay = smaller (c.base_delay_seconds * 2 ^ attempt) c.max_delay_seconds in
    let capped : delay ≤ c.max_delay_seconds = ground arith in
    let factor : 1000 + draw ≤ 2000 = omega arith in
    let with_jitter = mul-le-mul_left delay factor in
    elim (Bool-cases c.jitter) [ inl on ↦ ground arith | inr off ↦ ground arith ]
