-- ===== src/Adapters/Http/Attempts.antt =====
-- How the request loop ends.
use lidenal85_blip.Base.{
  length, ℕ, zero, suc, ◌+◌, ◌≤◌, ◌<◌, String, ◌≡◌, refl, ap, ◌≢◌, ◌⊎◌, inl, inr, true, false,
  Option, none, some, arith,
}
use lidenal85_blip.Contracts.Value.{Integer}
use lidenal85_blip.Adapters.Http.{
  turn, Answer, Ending, Turn, response, timeout, other_exception, returned, raised, finish, sleep,
  advance, loop, Request, request,
}

-- An answer after which the client tries again: none, or the status 429, or one from 500 on.
abbrev pub IsTransient : Answer → Type 0
IsTransient timeout = Unit
IsTransient other_exception = Unit
IsTransient (response r) = (r.status_code ≡ 429) ⊎ (500 ≤ r.status_code)

-- The attempts numbered from `a` to `a + n`, the last excluded, were answered so.
abbrev pub AllTransient : (ℕ → Answer) → ℕ → ℕ → Type 0
AllTransient answers a zero = Unit
AllTransient answers a (suc n) = IsTransient (answers a) × AllTransient answers (a + 1) n

-- What the caller gets for an answer that is not transient.
abbrev pub Settles : Answer → Ending → Type 0
Settles timeout e = ⊥
Settles other_exception e = ⊥
Settles (response r) (returned s) = (r ≡ s) × (r.status_code < 400)
Settles (response r) (raised e) =
    (400 ≤ r.status_code)
    × (r.status_code < 500)
    × (r.status_code ≢ 429)
    × (e ≡ record { status = some r.status_code; retryable = false })

module _ (parse_int : String → Option Integer) (retry_delay : ℕ) where
  Decides : Answer → Turn → Type 0
  Decides a (finish e) = Settles a e
  Decides a (sleep d) = IsTransient a

  turn_lem : (a : Answer) → Decides a (turn parse_int retry_delay a)
  unfolding turn Decides
  turn_lem timeout = tt
  turn_lem other_exception = tt
  turn_lem (response r) = ground arith

  -- The end of a run whose attempts before the number `k` were transient, of `n` allowed.
  abbrev pub EndsAt : (ℕ → Answer) → ℕ → ℕ → Request → Type 0
  EndsAt answers n k r =
      ((k < n) × (r.attempts_made ≡ k + 1) × Settles (answers k) r.ending)
      ⊎ ((k ≡ n)
          × (r.attempts_made ≡ n)
          × (r.ending ≡ raised (record { status = none; retryable = true })))

  -- From the attempt `a` on: the transient answers before the last attempt `k`, each with a
  -- delay.
  abbrev pub Ends : (ℕ → Answer) → ℕ → ℕ → Request → Type 0
  Ends answers a n r =
      (j : ℕ) × (k : ℕ) × (k ≡ a + j)
      × AllTransient answers a j
      × (length r.slept ≡ j)
      × EndsAt answers n k r

  advance-Ends :
      (answers : ℕ → Answer) (a n : ℕ) (t : Turn) (rest : Request)
      → a < n
      → Decides (answers a) t
      → Ends answers (a + 1) n rest
      → Ends answers a n (advance t rest a)
  unfolding advance Decides
  advance-Ends answers a n (finish e) rest room settled _ =
      (0, a, omega arith, tt, refl, inl (omega arith, refl, settled))
  advance-Ends answers a n (sleep d) rest room transient (j, k, place, before, slept, ends) =
      (suc j, k, omega arith, (transient, before), ap suc slept, ends)

  loop-Ends :
      (answers : ℕ → Answer) (a more n : ℕ)
      → n ≡ a + more
      → Ends answers a n (loop parse_int retry_delay answers a more)
  unfolding loop
  loop-Ends answers a zero n e = (0, a, omega arith, tt, refl, inr (omega arith, omega arith, refl))
  loop-Ends answers a (suc more) n e =
      advance-Ends answers a n (turn parse_int retry_delay (answers a))
        (loop parse_int retry_delay answers (a + 1) more) (omega arith) (turn_lem (answers a))
        (loop-Ends answers (a + 1) more n (omega arith))

  -- A request makes at most `max_retries` attempts and sleeps once for each transient answer: it
  -- ends at the first answer that is not transient, with the response if its status is below 400
  -- and with an error that is not retryable if it is a client error, and after `max_retries`
  -- transient answers with an error that is retryable.
  pub request-Ends :
      (answers : ℕ → Answer) (max_retries : ℕ)
      → Ends answers 0 max_retries (request parse_int max_retries retry_delay answers)
  unfolding request
  request-Ends answers max_retries = loop-Ends answers 0 max_retries max_retries (omega arith)
