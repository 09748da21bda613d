-- ===== src/Hardening/RateLimiter.antt =====
-- hardening/rate_limiter.py: the token bucket, in exact arithmetic where the code has floats: the
-- clock is read in ticks, `ticks` of them to the second, and tokens are counted in parts, 60 *
-- `ticks` of them to the token, so that a limiter gains `requests_per_minute` parts with each
-- tick. The clock may go back.
pub mod Rate
pub mod Waiting
use lidenal85_blip.Base.{
  leb, if◌then◌else◌, ℕ, zero, suc, ◌+◌, ◌*◌, Bool, true, false, Option, none, some,
}
use lidenal85_blip.Base.Int.{sub_ℕ, ◌+ℤ◌, lebℤ, ℤ, pos}

pub record RateLimiterConfig : Type 0 where
  pub requests_per_minute : ℕ
  pub burst_size : ℕ

abbrev pub default_config : RateLimiterConfig
default_config = record { requests_per_minute = 60; burst_size = 10 }

pub record RateLimiter : Type 0 where
  pub config : RateLimiterConfig
  pub tokens : ℤ
  pub last_refill : ℕ

unfoldable pub smaller : ℤ → ℤ → ℤ
smaller a b = if lebℤ a b then a else b

module _ (ticks : ℕ) where
  unfoldable pub parts : ℕ → ℕ
  parts n = n * (60 * ticks)

  unfoldable pub init : RateLimiterConfig → ℕ → RateLimiter
  init config now = record {
    config = config;
    tokens = pos (parts config.burst_size);
    last_refill = now;
  }

  -- `(now - self._last_refill) * self._rate`
  unfoldable pub gain : ℕ → RateLimiter → ℤ
  gain now r =
      sub_ℕ (now * r.config.requests_per_minute) (r.last_refill * r.config.requests_per_minute)

  -- `_refill`
  unfoldable pub refill : ℕ → RateLimiter → RateLimiter
  refill now r = record r {
    tokens = smaller (pos (parts r.config.burst_size)) (r.tokens +ℤ gain now r);
    last_refill = now;
  }

  unfoldable pub take_tokens : ℕ → RateLimiter → RateLimiter × Bool
  take_tokens n r =
      if lebℤ (pos (parts n)) r.tokens
      then (record r { tokens = r.tokens +ℤ sub_ℕ 0 (parts n) }, true)
      else (r, false)

  -- what `acquire` does under the lock, in one turn of its loop
  unfoldable pub turn : ℕ → ℕ → RateLimiter → RateLimiter × Bool
  turn n now r = take_tokens n (refill now r)

  -- `get_available_tokens`
  unfoldable pub get_available_tokens : ℕ → RateLimiter → RateLimiter × ℤ
  get_available_tokens now r = let r' = refill now r in (r', r'.tokens)

  -- `timeout is not None and time.time() - start_time >= timeout`
  unfoldable pub is_over : Option ℕ → ℕ → ℕ → Bool
  is_over none start now = false
  is_over (some timeout) start now = leb (start + timeout) now

  -- What a call of `acquire` meets in its turns: the clock in `_refill`, the clock at the test of
  -- the time limit, and what other threads do to the limiter before the next turn.
  pub record Surroundings : Type 0 where
    pub at_refill : ℕ → ℕ
    pub at_test : ℕ → ℕ
    pub meanwhile : ℕ → RateLimiter → RateLimiter

  module _ (s : Surroundings) (n : ℕ) (timeout : Option ℕ) (start : ℕ) where
    -- The `while True` loop, from the turn numbered `i`. Fuel is the turns left.
    unfoldable pub loop : ℕ → ℕ → RateLimiter → Option (RateLimiter × Bool)
    loop zero i r = none
    loop (suc fuel) i r =
        let (r', granted) = turn n (s.at_refill i) r in
        let rest = loop fuel (i + 1) (s.meanwhile i r') in
        if granted
        then some (r', true)
        else if is_over timeout start (s.at_test i)
        then some (r', false)
        else rest

  -- `acquire`, in `fuel` turns; `start` is the reading of the clock at its start
  unfoldable pub acquire :
      Surroundings → ℕ → Option ℕ → ℕ → ℕ → RateLimiter → Option (RateLimiter × Bool)
  acquire s n timeout start fuel r = loop s n timeout start fuel 0 r
