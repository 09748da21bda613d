-- ===== src/Adapters/Fetch/Fallback.antt =====
-- What a fetch returns, from what the API and the page give.
use lidenal85_blip.Base.{if◌then◌else◌, length, ℕ, ◌+◌, ◌≡◌, ◌&&◌, List, [], arith}
use lidenal85_blip.Contracts.Floats.{Floats, Outcome, ok, raise}
use lidenal85_blip.Hardening.CircuitBreaker.{CircuitBreaker, call, check_state, closed}
use lidenal85_blip.Adapters.Items.{Python}
use lidenal85_blip.Adapters.Fetch.{
  is_empty, fetch_via_api, fetch_via_nimble, fetch_surveys, Platform, Network,
}

-- what an outcome gives, and whether it is an exception
abbrev pub given {ℓ} : {A : Type ℓ} → Outcome (List A) → List A
given (ok xs) = xs
given (raise e) = []

abbrev pub one_if_raised {ℓ} : {A : Type ℓ} → Outcome A → ℕ
one_if_raised (ok xs) = 0
one_if_raised (raise e) = 1

module _ (N : Floats) (py : Python N) (platform : Platform N) (net : Network N) where
  open N use {Float}

  -- Behind a closed breaker a fetch returns the API's surveys if there are any, and else those of
  -- the page if Nimble is enabled; it reports one error for each of the two that it tried and
  -- that raised, and counts the surveys that it returns.
  pub fetch_surveys_lem :
      (now later : ℕ) (b : CircuitBreaker)
      → b.state ≡ closed
      → let r = (fetch_surveys N py platform net now later b).1 in
        let from_api = fetch_via_api N py platform net in
        let from_page = fetch_via_nimble N py platform net in
        let falls_back = is_empty (given from_api) && net.nimble_enabled in
        (r.surveys ≡ (if falls_back then given from_page else given from_api))
        × (length r.errors
            ≡ one_if_raised from_api + (if falls_back then one_if_raised from_page else 0))
        × (r.total_fetched ≡ length r.surveys)
  unfolding fetch_surveys call check_state
  fetch_surveys_lem now later b h = ground arith
