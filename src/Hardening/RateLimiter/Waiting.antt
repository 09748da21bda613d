-- ===== src/Hardening/RateLimiter/Waiting.antt =====
-- How long `acquire` waits.
use lidenal85_blip.Base.{
  leb, Bool-cases, ℕ, zero, suc, ◌+◌, ◌≤◌, ◌<◌, ◌≡◌, refl, ap, ◌∙◌, inl, inr, Bool, true, false,
  none, some, arith,
}
use lidenal85_blip.Hardening.RateLimiter.{
  smaller, parts, refill, take_tokens, turn, is_over, loop, acquire, RateLimiter, Surroundings,
  RateLimiterConfig,
}

module _ (ticks : ℕ) where
  abbrev pub KeepsConfig : Surroundings ticks → Type 0
  KeepsConfig s = (i : ℕ) (r : RateLimiter) → (s.meanwhile i r).config ≡ r.config

  parts-lt : (a b : ℕ) → 0 < ticks → a < b → parts ticks a < parts ticks b
  unfolding parts
  parts-lt a b p h = grind arith

  refused :
      (n now : ℕ) (r : RateLimiter)
      → 0 < ticks
      → r.config.burst_size < n
      → ((turn ticks n now r).1 ≡ false) × ((turn ticks n now r).0.config ≡ r.config)
  unfolding turn take_tokens refill smaller
  refused n now r p h = ground (arith, parts-lt r.config.burst_size n p h)

  loop_waits :
      (s : Surroundings ticks) (n start fuel i : ℕ) (r : RateLimiter)
      → KeepsConfig s
      → 0 < ticks
      → r.config.burst_size < n
      → loop ticks s n none start fuel i r ≡ none
  unfolding loop is_over
  loop_waits s n start zero i r keeps p h = refl
  loop_waits s n start (suc fuel) i r keeps p h =
      let r' : RateLimiter = (turn ticks n (s.at_refill i) r).0 in
      let (no_tokens, same) = refused n (s.at_refill i) r p h in
      let kept = ap (λ (c : RateLimiterConfig). c.burst_size) (keeps i r' ∙ same) in
      rw no_tokens
        (loop_waits s n start fuel (i + 1) (s.meanwhile i r') keeps p (omega (arith, kept)))

  -- With a clock that ticks, a call that asks for more tokens than the burst and gives no time
  -- limit never returns: whatever the clock reads and other threads do, short of changing the
  -- configuration, no number of turns ends it.
  pub acquire_never_returns :
      (s : Surroundings ticks) (n start fuel : ℕ) (r : RateLimiter)
      → KeepsConfig s
      → 0 < ticks
      → r.config.burst_size < n
      → acquire ticks s n none start fuel r ≡ none
  unfolding acquire
  acquire_never_returns s n start fuel r keeps p h = loop_waits s n start fuel 0 r keeps p h

  loop_ends :
      (s : Surroundings ticks) (n timeout start fuel i : ℕ) (r : RateLimiter)
      → ((j : ℕ) → start + j ≤ s.at_test j)
      → i ≤ timeout
      → timeout < i + fuel
      → (end_state : RateLimiter × Bool) × (loop ticks s n (some timeout) start fuel i r
          ≡ some end_state)
  unfolding loop is_over
  loop_ends s n timeout start zero i r passes early enough = absurd (omega arith)
  loop_ends s n timeout start (suc fuel) i r passes early enough =
      let r' : RateLimiter = (turn ticks n (s.at_refill i) r).0 in
      elim (Bool-cases (turn ticks n (s.at_refill i) r).1) [
        | inl granted ↦ ((r', true), rw granted refl)
        | inr too_few ↦ elim (Bool-cases (leb (start + timeout) (s.at_test i))) [
          | inl over ↦ ((r', false), rw (too_few, over) refl)
          | inr left ↦
              rw (too_few, left)
                (loop_ends s n timeout start fuel (i + 1) (s.meanwhile i r') passes
                  (ground (arith, passes i)) (omega arith))
        ]
      ]

  -- A call with a time limit returns, whatever other threads do, if the clock has passed a tick
  -- at least in each turn: a turn more than the limit has ticks is enough.
  pub acquire_ends :
      (s : Surroundings ticks) (n timeout start : ℕ) (r : RateLimiter)
      → ((j : ℕ) → start + j ≤ s.at_test j)
      → (end_state : RateLimiter × Bool) × (acquire ticks s n (some timeout) start (timeout + 1) r
          ≡ some end_state)
  unfolding acquire
  acquire_ends s n timeout start r passes =
      loop_ends s n timeout start (timeout + 1) 0 r passes (omega arith) (omega arith)
