-- ===== src/Bootstrap/Outage.antt =====
-- A poll cycle from end to end, from the network's answers to `_last_cycle`: the sources'
-- adapters are made, fetch and hand their surveys to the orchestrators, whose summaries are added
-- up.
use lidenal85_blip.Base.{ℕ, String, ◌≡◌, refl, ap, ◌∙◌, inl, inr, false, some, List, [], ◌∷◌, arith}
use lidenal85_blip.Contracts.Floats.{◌>>=◌, Outcome, Floats, ok}
use lidenal85_blip.Contracts.Survey.{Survey}
use lidenal85_blip.Pipeline.Orchestrator.{RunReturn, summary_of, Settings, Answers, run}
use lidenal85_blip.Adapters.Items.{Python}
use lidenal85_blip.Adapters.Fetch.{
  breaker_config, fetch_surveys, prolific, Platform, Network, cloudresearch, respondent,
  fetch_prolific, fetch_cloudresearch, fetch_respondent,
}
use lidenal85_blip.Adapters.Fetch.Fallback.{fetch_surveys_lem}
use lidenal85_blip.Adapters.Fetch.Outage.{IsDown, down_raises}
use lidenal85_blip.Adapters.Registry.{
  Registry, make_adapter, fetch_from, Adapter, new_adapter, AdapterClass, AdapterConfig,
  prolific_adapter, cloudresearch_adapter, respondent_adapter,
}
use lidenal85_blip.Adapters.Registry.Rebuilt.{make_adapter-cases}
use lidenal85_blip.Hardening.CircuitBreaker.{init}
use lidenal85_blip.Bootstrap.{
  build_pipeline, run_poll_cycle, LastCycle, no_totals, add_summary, poll_sources, Totals,
  completed,
}

module _ (N : Floats) (py : Python N) where
  open N use {Float}

  -- What a source's orchestrator meets in a cycle: its settings, the network, the two readings of
  -- the breaker's clock, and what the gate and the dispatcher answer for a survey.
  pub record Surroundings : Type 0 where
    pub settings : Settings N
    pub net : Network N
    pub now : ℕ
    pub later : ℕ
    pub answers : Survey Float → Answers

  with_answers : (Survey Float → Answers) → List (Survey Float) → List (Survey Float × Answers)
  with_answers answers [] = []
  with_answers answers (s ∷ ss) = (s, answers s) ∷ with_answers answers ss

  -- `run` of the orchestrator of an adapter: of the result of the fetch it reads the surveys only
  unfoldable pub run_adapter : Surroundings → Adapter → RunReturn
  unfolding with_answers
  run_adapter around a =
      let result = (fetch_from N py around.net around.now around.later a).1 in
      run N around.settings (ok (with_answers around.answers result.surveys))

  -- `_make_orchestrator`, and `run` of what it makes
  unfoldable pub run_source : Registry → (String → Surroundings) → String → Outcome RunReturn
  run_source registry around source =
      make_adapter registry source >>= λ a. ok (run_adapter (around source) a)

  all_return : List RunReturn → List (Outcome RunReturn)
  all_return [] = []
  all_return (r ∷ rs) = ok r ∷ all_return rs

  -- The poll cycle over the sources.
  unfoldable pub poll_all :
      Registry → (String → Surroundings) → List String → String → ℕ → ℕ → LastCycle → LastCycle
  unfolding all_return
  poll_all registry around sources cycle_id now later c =
      run_poll_cycle cycle_id now later
        (all_return (build_pipeline (run_source registry around) sources)) c

  -- Every platform is down, and there is no key for Nimble.
  abbrev pub AllDown : (String → Surroundings) → Type 0
  AllDown around =
      (source : String)
      → IsDown N py (prolific N py) (around source).net
        × ((around source).net.nimble_enabled ≡ false)

  down_fetches_none :
      (platform : Platform N) (net : Network N) (now later : ℕ)
      → IsDown N py platform net
      → net.nimble_enabled ≡ false
      → (fetch_surveys N py platform net now later (init breaker_config)).1.surveys ≡ []
  unfolding init
  down_fetches_none platform net now later down no_key =
      let (e, raises) = down_raises N py platform net down in
      let (surveys, errors, total) =
        fetch_surveys_lem N py platform net now later (init breaker_config) refl in
      ground (arith, surveys, raises)

  class_fetches_none :
      (class : AdapterClass) (config : AdapterConfig) (net : Network N) (now later : ℕ)
      → IsDown N py (prolific N py) net
      → net.nimble_enabled ≡ false
      → (fetch_from N py net now later (new_adapter class config)).1.surveys ≡ []
  unfolding fetch_from new_adapter fetch_prolific fetch_cloudresearch fetch_respondent IsDown
  class_fetches_none prolific_adapter config net now later down no_key =
      down_fetches_none (prolific N py) net now later down no_key
  class_fetches_none cloudresearch_adapter config net now later down no_key =
      down_fetches_none (cloudresearch N py) net now later down no_key
  class_fetches_none respondent_adapter config net now later down no_key =
      down_fetches_none (respondent N py) net now later down no_key

  none_adds_nothing :
      (settings : Settings N) (answers : Survey Float → Answers) (ss : List (Survey Float))
      (t : Totals)
      → ss ≡ []
      → add_summary (summary_of (run N settings (ok (with_answers answers ss)))) t ≡ t
  unfolding run with_answers
  none_adds_nothing settings answers ss t none_left = rw none_left (ground arith)

  down_adds_nothing :
      (registry : Registry) (around : String → Surroundings) (sources : List String) (t : Totals)
      → AllDown around
      → poll_sources (all_return (build_pipeline (run_source registry around) sources)) t ≡ ok t
  unfolding poll_sources all_return build_pipeline run_source run_adapter
  down_adds_nothing registry around [] t down = refl
  down_adds_nothing registry around (source ∷ sources) t down =
      let (platform_down, no_key) = down source in
      let a = around source in
      elim (make_adapter-cases registry source) [
        | inl (e, fails) ↦ rw fails (down_adds_nothing registry around sources t down)
        | inr (class, config, made) ↦ rw made (
            ap (poll_sources (all_return (build_pipeline (run_source registry around) sources))) (
              none_adds_nothing a.settings a.answers
                (fetch_from N py a.net a.now a.later (new_adapter class config)).1.surveys t
                (class_fetches_none class config a.net a.now a.later platform_down no_key))
            ∙ down_adds_nothing registry around sources t down)
      ]

  -- When every platform is down and there is no key for Nimble, the poll cycle over any sources
  -- is reported as completed, with nothing fetched and no error.
  pub outage_completes :
      (registry : Registry) (around : String → Surroundings) (sources : List String)
      (cycle_id : String) (now later : ℕ) (c : LastCycle)
      → AllDown around
      → poll_all registry around sources cycle_id now later c ≡ record {
        cycle_id = some cycle_id;
        status = completed;
        started_at = some now;
        finished_at = some later;
        summary = some no_totals;
      }
  unfolding poll_all run_poll_cycle
  outage_completes registry around sources cycle_id now later c down =
      rw (down_adds_nothing registry around sources no_totals down) refl
