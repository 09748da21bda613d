-- ===== src/Hardening/RateLimiter/Rate.antt =====
-- How many tokens a limiter grants: the rate that it promises.
use mathlib.Core.Path.{subst}
use lidenal85_blip.Base.{
  Bool-cases, if◌then◌else◌, ℕ, ◌+◌, ◌*◌, ◌≤◌, ◌≡◌, refl, ap, ◌∙◌, inl, inr, Bool, true, List, [],
  ◌∷◌, arith,
}
use lidenal85_blip.Base.Int.{
  pos_part, neg_part, sub_ℕ, ◌+ℤ◌, sub_ℕ_parts, +ℤ_parts, ℤ, pos, ◌≤ℤ◌, lebℤ,
}
use lidenal85_blip.Hardening.RateLimiter.{
  parts, gain, refill, turn, RateLimiter, smaller, take_tokens, init, RateLimiterConfig,
}

smaller-le : (a b : ℤ) → smaller a b ≤ℤ b
unfolding smaller
smaller-le a b = ground arith

module _ (ticks : ℕ) where
  abbrev count_if : Bool → ℕ → ℕ
  count_if granted n = if granted then n else 0

  -- Turns of any calls in any threads, in the order in which they get the lock, each with its
  -- reading of the clock and the tokens that it asks for; and the tokens granted.
  unfoldable pub run_turns : List (ℕ × ℕ) → RateLimiter → RateLimiter × ℕ
  run_turns [] r = (r, 0)
  run_turns ((now, n) ∷ turns) r =
      let (r', granted) = turn ticks n now r in
      let (last, total) = run_turns turns r' in (last, count_if granted n + total)

  parts-add : (a b : ℕ) → parts ticks (a + b) ≡ parts ticks a + parts ticks b
  unfolding parts
  parts-add a b = grind arith

  parts-zero : parts ticks 0 ≡ 0
  unfolding parts
  parts-zero = omega arith

  -- what has been granted and what is left come from what was there and what the time gave
  abbrev Balanced : ℕ → RateLimiter → RateLimiter → ℕ → Type 0
  Balanced rate r r' granted =
      parts ticks granted + pos_part r'.tokens + neg_part r.tokens + r.last_refill * rate
      ≤ neg_part r'.tokens + pos_part r.tokens + r'.last_refill * rate

  refill_balanced :
      (now : ℕ) (r : RateLimiter)
      → pos_part (refill ticks now r).tokens
          + neg_part r.tokens
          + r.last_refill * r.config.requests_per_minute
        ≤ neg_part (refill ticks now r).tokens
          + pos_part r.tokens
          + now * r.config.requests_per_minute
  unfolding refill gain
  refill_balanced now r =
      let rate : ℕ = r.config.requests_per_minute in
      let gained : ℤ = sub_ℕ (now * rate) (r.last_refill * rate) in
      omega (
        arith,
        sub_ℕ_parts (now * rate) (r.last_refill * rate),
        +ℤ_parts r.tokens gained,
        smaller-le (pos (parts ticks r.config.burst_size)) (r.tokens +ℤ gained),
      )

  take_balanced :
      (n : ℕ) (r : RateLimiter)
      → parts ticks (count_if (take_tokens ticks n r).1 n)
          + pos_part (take_tokens ticks n r).0.tokens
          + neg_part r.tokens
        ≤ neg_part (take_tokens ticks n r).0.tokens + pos_part r.tokens
  unfolding take_tokens
  take_balanced n r = elim (Bool-cases (lebℤ (pos (parts ticks n)) r.tokens)) [
    | inl enough ↦
        rw enough (
          omega (arith, +ℤ_parts r.tokens (sub_ℕ 0 (parts ticks n)), sub_ℕ_parts 0 (parts ticks n)))
    | inr few ↦ rw few (omega (arith, parts-zero))
  ]

  turn_keeps :
      (n now : ℕ) (r : RateLimiter)
      → ((turn ticks n now r).0.config ≡ r.config) × ((turn ticks n now r).0.last_refill ≡ now)
  unfolding turn take_tokens refill
  turn_keeps n now r = ground arith

  turn-Balanced :
      (n now : ℕ) (r : RateLimiter)
      → Balanced r.config.requests_per_minute r
          (turn ticks n now r).0
          (count_if (turn ticks n now r).1 n)
  unfolding turn
  turn-Balanced n now r = omega (
    arith,
    refill_balanced now r,
    take_balanced n (refill ticks now r),
    ap (λ (t : ℕ). t * r.config.requests_per_minute) (turn_keeps n now r).1,
  )

  abbrev rate_of : RateLimiter → ℕ
  rate_of r = r.config.requests_per_minute

  turn-Balanced_at :
      (rate n now : ℕ) (r : RateLimiter)
      → rate_of r ≡ rate
      → Balanced rate r (turn ticks n now r).0 (count_if (turn ticks n now r).1 n)
  turn-Balanced_at rate n now r h =
      subst (λ (k : ℕ). Balanced k r (turn ticks n now r).0 (count_if (turn ticks n now r).1 n)) h
        (turn-Balanced n now r)

  run_turns-Balanced :
      (rate : ℕ) (turns : List (ℕ × ℕ)) (r : RateLimiter)
      → rate_of r ≡ rate
      → Balanced rate r (run_turns turns r).0 (run_turns turns r).1
        × (rate_of (run_turns turns r).0 ≡ rate)
  unfolding run_turns
  run_turns-Balanced rate [] r h = (omega (arith, parts-zero), h)
  run_turns-Balanced rate ((now, n) ∷ turns) r h =
      let r' : RateLimiter = (turn ticks n now r).0 in
      let granted : ℕ = count_if (turn ticks n now r).1 n in
      let (balanced, same) =
        run_turns-Balanced rate turns r'
          (ap (λ (c : RateLimiterConfig). c.requests_per_minute) (turn_keeps n now r).0 ∙ h) in
      (
        omega (
          arith,
          balanced,
          turn-Balanced_at rate n now r h,
          parts-add granted (run_turns turns r').1,
        ),
        same,
      )

  granted_tokens :
      (n now : ℕ) (r : RateLimiter)
      → (turn ticks n now r).1 ≡ true
      → neg_part (turn ticks n now r).0.tokens ≡ 0
  unfolding turn take_tokens
  granted_tokens n now r granted =
      let tokens : ℤ = (refill ticks now r).tokens in
      ground (arith, +ℤ_parts tokens (sub_ℕ 0 (parts ticks n)), sub_ℕ_parts 0 (parts ticks n))

  -- However the calls and the threads interleave, and whatever the clock reads: when a limiter
  -- that was made at `start` grants `n` tokens at `now`, all that it has granted by then is at
  -- most its burst and what its rate gives in the time since `start`.
  pub rate_is_kept :
      (config : RateLimiterConfig) (start now n : ℕ) (turns : List (ℕ × ℕ))
      → let (r, before) = run_turns turns (init ticks config start) in
        (turn ticks n now r).1 ≡ true
        → parts ticks (before + n) + start * config.requests_per_minute
          ≤ parts ticks config.burst_size + now * config.requests_per_minute
  unfolding init
  rate_is_kept config start now n turns granted =
      let rate : ℕ = config.requests_per_minute in
      let (balanced, same) = run_turns-Balanced rate turns (init ticks config start) refl in
      let r : RateLimiter = (run_turns turns (init ticks config start)).0 in
      let total : ℕ = (run_turns turns (init ticks config start)).1 in
      omega (
        arith,
        balanced,
        subst (λ (b : Bool). Balanced rate r (turn ticks n now r).0 (count_if b n)) granted
            (turn-Balanced_at rate n now r same),
        parts-add total n,
        granted_tokens n now r granted,
        ap (λ (t : ℕ). t * rate) (turn_keeps n now r).1,
      )
