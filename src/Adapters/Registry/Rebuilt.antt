-- ===== src/Adapters/Registry/Rebuilt.antt =====
-- The adapters of the poll cycles: each cycle makes its own, so no breaker lives to count to
-- three.
use lidenal85_blip.Base.{
  Option-cases, string_eq, All, ℕ, ◌≤◌, String, ◌<>◌, ◌≡◌, ◌⊎◌, inl, inr, List, [], ◌∷◌, arith,
}
use lidenal85_blip.Base.Dict.{lookup-nil}
use lidenal85_blip.Contracts.Floats.{◌>>=◌, Raised, Outcome, Floats, value_error, ok, raise}
use lidenal85_blip.Adapters.Items.{Python}
use lidenal85_blip.Adapters.Fetch.{
  breaker_config, fetch_surveys, Platform, Network, AdapterResult, prolific, cloudresearch,
  respondent, fetch_prolific, fetch_cloudresearch, fetch_respondent,
}
use lidenal85_blip.Adapters.Registry.{
  Registry, get_class, new_adapter, create_adapter, get_adapter, make_adapter, fetch_from,
  AdapterClass, AdapterConfig, Adapter, prolific_adapter, cloudresearch_adapter, respondent_adapter,
}
use lidenal85_blip.Hardening.CircuitBreaker.{
  init, closed, check_state, record_success, record_failure, call,
}

-- the adapter is made in this very call, or the source is not registered
pub make_adapter-cases :
    (registry : Registry) (source : String)
    → ((e : Raised) × (make_adapter registry source ≡ raise e))
      ⊎ ((class : AdapterClass) × (config : AdapterConfig) × (make_adapter registry source
            ≡ ok (new_adapter class config)))
unfolding make_adapter get_adapter create_adapter
make_adapter-cases registry source =
    let unused = lookup-nil {V = Adapter} source in
    elim (Option-cases (get_class source registry)) [
      | inl unknown ↦ inl (
        record { class_of = value_error; text = "Adapter '" <> (source <> "' not registered") },
        ground (arith, unused),
      )
      | inr (class, known) ↦
          inr (class, record { source = source; timeout_seconds = 30 }, ground (arith, unused))
    ]

module _ (N : Floats) (py : Python N) where
  -- What one poll cycle meets at the source: the network, and two readings of the breaker's
  -- clock.
  abbrev pub Visit : Type 0
  Visit = Network N × ℕ × ℕ

  -- The fetches of a source in one poll cycle after another, each with the adapter that the cycle
  -- makes.
  unfoldable pub poll_cycles :
      Registry → String → List Visit → List (Outcome (Adapter × AdapterResult N.Float))
  poll_cycles registry source [] = []
  poll_cycles registry source ((net, now, later) ∷ visits) =
      (make_adapter registry source >>= λ a. ok (fetch_from N py net now later a))
      ∷ poll_cycles registry source visits

  -- a fetch behind a closed breaker that has counted no failure
  first_fetch :
      (platform : Platform N) (net : Network N) (now later : ℕ)
      → let r = fetch_surveys N py platform net now later (init breaker_config) in
        (r.0.state ≡ closed) × (r.0.failure_count ≤ 1)
  unfolding fetch_surveys call check_state init record_success record_failure
  first_fetch platform net now later = ground arith

  fetch_of_class :
      (class : AdapterClass) (config : AdapterConfig) (net : Network N) (now later : ℕ)
      → let b = (fetch_from N py net now later (new_adapter class config)).0.breaker in
        (b.state ≡ closed) × (b.failure_count ≤ 1)
  unfolding fetch_from new_adapter fetch_prolific fetch_cloudresearch fetch_respondent
  fetch_of_class prolific_adapter config net now later = first_fetch (prolific N py) net now later
  fetch_of_class cloudresearch_adapter config net now later =
      first_fetch (cloudresearch N py) net now later
  fetch_of_class respondent_adapter config net now later =
      first_fetch (respondent N py) net now later

  abbrev pub NeverOpens : Outcome (Adapter × AdapterResult N.Float) → Type 0
  NeverOpens (ok (a, result)) = (a.breaker.state ≡ closed) × (a.breaker.failure_count ≤ 1)
  NeverOpens (raise e) = Unit

  -- In any number of poll cycles, whatever they meet and also where the API fails in all of them,
  -- no breaker that a cycle's adapter has ever opens, or counts more than one failure.
  pub poll_cycles_never_open :
      (registry : Registry) (source : String) (visits : List Visit)
      → All NeverOpens (poll_cycles registry source visits)
  unfolding poll_cycles
  poll_cycles_never_open registry source [] = tt
  poll_cycles_never_open registry source ((net, now, later) ∷ visits) =
      elim (make_adapter-cases registry source) [
        | inl (e, fails) ↦ rw fails (tt, poll_cycles_never_open registry source visits)
        | inr (class, config, made) ↦ rw made (
          fetch_of_class class config net now later,
          poll_cycles_never_open registry source visits,
        )
      ]
