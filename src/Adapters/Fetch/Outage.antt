-- ===== src/Adapters/Fetch/Outage.antt =====
-- A platform that is down, over several cycles: the client's retries, the breaker and the fetch.
use lidenal85_blip.Base.{ℕ, ◌+◌, ◌<◌, ◌≡◌, refl, ap, ◌∙◌, inl, inr, true, none, some, arith}
use lidenal85_blip.Contracts.Value.{Value}
use lidenal85_blip.Contracts.Floats.{Floats, Outcome, Raised, other_error, raise}
use lidenal85_blip.Adapters.Http.{
  Answer, Response, Ending, response, timeout, other_exception, returned, raised, request,
}
use lidenal85_blip.Adapters.Http.Attempts.{IsTransient, Settles, request-Ends}
use lidenal85_blip.Hardening.CircuitBreaker.{
  CircuitBreaker, call, check_state, record_failure, init, closed, open_state,
}
use lidenal85_blip.Adapters.Items.{Python}
use lidenal85_blip.Adapters.Fetch.{
  fetch_via_api, fetch_surveys, Platform, Network, breaker_config, fetch_via_nimble,
}

Settles-IsTransient : (a : Answer) (e : Ending) → Settles a e → IsTransient a → ⊥
Settles-IsTransient timeout e settled transient = settled
Settles-IsTransient other_exception e settled transient = settled
Settles-IsTransient (response r) (returned s) (same, low) transient = ground arith
Settles-IsTransient (response r) (raised e) (four, five, rate, same) transient = ground arith

module _ (N : Floats) (py : Python N) (platform : Platform N) where
  open N use {Float}

  -- No attempt of the request to the API is answered but by the statuses 429 and from 500 on.
  unfoldable pub IsDown : Network N → Type 0
  IsDown net = (i : ℕ) → IsTransient (net.answers i)

  pub down_raises :
      (net : Network N) → IsDown net → (e : Raised) × (fetch_via_api N py platform net ≡ raise e)
  unfolding fetch_via_api IsDown
  down_raises net down =
      let (j, k, place, before, slept, ends) = request-Ends net.parse_int 5 net.answers 3 in
      elim ends [
        | inl (low, made, settled) ↦ absurd (
            Settles-IsTransient (net.answers k) (request net.parse_int 3 5 net.answers).ending
              settled (down k))
        | inr (last, made, ending) ↦ (
          record {
            class_of = other_error;
            text = net.adapter_error_text (record { status = none; retryable = true });
          },
          rw ending refl,
        )
      ]

  -- one cycle of a platform that is down
  down_step :
      (net : Network N) (now later : ℕ) (b : CircuitBreaker)
      → IsDown net
      → b.state ≡ closed
      → (fetch_surveys N py platform net now later b).0 ≡ record_failure later b
  unfolding fetch_surveys call check_state
  down_step net now later b down h =
      let (e, raises) = down_raises net down in ground (arith, raises)

  -- Three cycles in a row of a new adapter, each at a network and two readings of the breaker's
  -- clock.
  unfoldable pub down_thrice :
      Network N × ℕ × ℕ → Network N × ℕ × ℕ → Network N × ℕ × ℕ → CircuitBreaker
  down_thrice (n, t, l) (n', t', l') (n'', t'', l'') =
      let first = (fetch_surveys N py platform n t l (init breaker_config)).0 in
      let second = (fetch_surveys N py platform n' t' l' first).0 in
      (fetch_surveys N py platform n'' t'' l'' second).0

  down_thrice_opens :
      (n n' n'' : Network N) (t l t' l' t'' l'' : ℕ)
      → IsDown n
      → IsDown n'
      → IsDown n''
      → down_thrice (n, t, l) (n', t', l') (n'', t'', l'') ≡ record (init breaker_config) {
        state = open_state;
        failure_count = 3;
        last_failure_time = some l'';
      }
  unfolding down_thrice init record_failure
  down_thrice_opens n n' n'' t l t' l' t'' l'' down down' down'' =
      let b : CircuitBreaker = init breaker_config in
      ap
        (λ (x : CircuitBreaker).
          (fetch_surveys N py platform n'' t'' l'' (fetch_surveys N py platform n' t' l' x).0).0)
        (down_step n t l b down refl)
      ∙ ap (λ (x : CircuitBreaker). (fetch_surveys N py platform n'' t'' l'' x).0)
          (down_step n' t' l' (record_failure l b) down' refl)
      ∙ down_step n'' t'' l'' (record_failure l' (record_failure l b)) down'' refl

  open_ignores :
      (net : Network N) (answers : ℕ → Answer) (json : Response → Outcome (Value Float))
      (now later failed : ℕ) (b : CircuitBreaker)
      → b.state ≡ open_state
      → b.last_failure_time ≡ some failed
      → now < failed + b.config.timeout_seconds
      → (fetch_surveys N py platform net now later b
          ≡ fetch_surveys N py platform (record net { answers = answers; json = json }) now later b)
        × ((fetch_surveys N py platform net now later b).0 ≡ b)
  unfolding fetch_surveys call check_state fetch_via_nimble
  open_ignores net answers json now later failed b h e early = ground arith

  -- When a platform is down in three cycles in a row of a new adapter, every retry of the client
  -- included, then until 120 seconds after the last failure a fetch does not depend on what the
  -- API would answer, and leaves the breaker as it is.
  pub outage_spares_api :
      (n n' n'' net : Network N) (t l t' l' t'' l'' now later : ℕ) (answers : ℕ → Answer)
      (json : Response → Outcome (Value Float))
      → IsDown n
      → IsDown n'
      → IsDown n''
      → now < l'' + 120
      → let b = down_thrice (n, t, l) (n', t', l') (n'', t'', l'') in
        (fetch_surveys N py platform net now later b
          ≡ fetch_surveys N py platform (record net { answers = answers; json = json }) now later b)
        × ((fetch_surveys N py platform net now later b).0 ≡ b)
  unfolding init
  outage_spares_api n n' n'' net t l t' l' t'' l'' now later answers json down down' down'' early =
      rw (down_thrice_opens n n' n'' t l t' l' t'' l'' down down' down'') (
        open_ignores net answers json now later l''
          (record (init breaker_config) {
            state = open_state;
            failure_count = 3;
            last_failure_time = some l'';
          })
          refl refl early)
