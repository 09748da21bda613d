-- ===== src/Bootstrap/Profile.antt =====
-- The profile and the settings of the orchestrators that bootstrap/pipeline.py makes: `run` is
-- called without a profile, so each of them takes `_default_profile` of pipeline/orchestrator.py.
use lidenal85_blip.Base.{ℕ, String, ◌≡◌, ap, ◌∙◌, true, false, none, List, [], ◌∷◌, arith}
use lidenal85_blip.Contracts.Value.{end}
use lidenal85_blip.Contracts.Floats.{Floats, ok}
use lidenal85_blip.Contracts.Survey.{basic_survey, Survey, UserProfile}
use lidenal85_blip.Contracts.Pydantic.{Pydantic, IsLawful}
use lidenal85_blip.Pipeline.Orchestrator.{
  no_counts, is_rejected, idempotency_key, to_dlq, filter_and_send, process_one, Answers, Effect,
  Counts, accepted, delivered, check_key, send,
}
use lidenal85_blip.Pipeline.Orchestrator.Restrictions.{process_one-stripped}
use lidenal85_blip.Filter.{check_country, check_device, check_screening}
use lidenal85_blip.Filter.Engine.{
  check_rules, is_unwanted, check_source, is_too_long, check_duration, decide, tally, evaluate,
  FilterResult, eligible,
}
use lidenal85_blip.Normalization.Surveys.{stripped}
use lidenal85_blip.Pipeline.Orchestrator.{Settings}

module _ (N : Floats) where
  open N use {Float, decimal, add, le, of_integer}

  -- `UserProfile(user_id=…, country=…, min_hourly_rate=…)`: every other field has its default
  unfoldable pub basic_profile : String → String → Float → UserProfile Float
  basic_profile user_id country min_hourly_rate = record {
    user_id = user_id;
    country = country;
    min_hourly_rate = min_hourly_rate;
    allowed_devices = "desktop" ∷ "mobile" ∷ "tablet" ∷ [];
    demographics = end;
    preferred_sources = [];
    max_duration_minutes = none;
    notifications_enabled = true;
    profile_version = "v1";
  }

  unfoldable pub default_profile : UserProfile Float
  unfolding basic_profile
  default_profile = basic_profile "default" "US" (decimal 150 1)

  -- what `_make_orchestrator` builds an orchestrator with; the validation, the cycle and the time
  -- of a failure are given
  unfoldable pub bootstrap_settings : Pydantic N → String → ℕ → Settings N
  unfolding default_profile
  bootstrap_settings construct cycle_id failed_at = record {
    construct = construct;
    strict = true;
    min_score = decimal 5 1;
    profile = default_profile;
    cycle_id = cycle_id;
    failed_at = failed_at;
  }

  -- 0.3 + 0.2 + 0.1, and the same on top of 0.4
  abbrev pub below_rate : Float
  below_rate = add (add (add (decimal 0 1) (decimal 30 2)) (decimal 20 2)) (decimal 10 2)

  abbrev pub in_full : Float
  in_full =
      add (add (add (add (decimal 0 1) (decimal 40 2)) (decimal 30 2)) (decimal 20 2))
        (decimal 10 2)

  module _ (construct : Pydantic N) (lawful : IsLawful N construct) (cycle_id : String)
      (failed_at : ℕ) (enough : le (decimal 5 1) below_rate ≡ true)
      (enough' : le (decimal 5 1) in_full ≡ true) where
    abbrev pub made : Settings N
    made = bootstrap_settings construct cycle_id failed_at

    abbrev pub decision : Survey Float → FilterResult Float
    decision s = evaluate N made.min_score (stripped s) made.profile cycle_id

    decision-eligible : (s : Survey Float) → (decision s).status ≡ eligible
    unfolding evaluate tally check_rules check_source check_duration decide is_unwanted is_too_long
        default_profile bootstrap_settings check_country check_device check_screening basic_survey
    decision-eligible s = ground (arith, enough, enough')

    kept : (s : Survey Float) → is_rejected (decision s).status ≡ false
    kept s = ap is_rejected (decision-eligible s)

    rejected_none :
        (s : Survey Float) (answers : Answers)
        → (filter_and_send N made (stripped s) answers).0.rejected_count ≡ 0
    unfolding filter_and_send to_dlq bootstrap_settings default_profile
    rejected_none s answers = ground (arith, kept s)

    lawful_made : IsLawful N made.construct
    unfolding bootstrap_settings
    lawful_made = lawful

    sent :
        (s : Survey Float)
        → filter_and_send N made
            (stripped s)
            (record { gate = ok accepted; dispatch = ok delivered })
          ≡ (
            record no_counts { delivered_count = 1 },
            check_key (idempotency_key N made (stripped s))
                ∷ send (stripped s) (decision s).score (decision s).reasons
                ∷ [],
          )
    unfolding filter_and_send bootstrap_settings
    sent s = ground (arith, kept s)

    -- In the orchestrators that the bootstrap makes, with a lawful validation and if the weights
    -- of the country, the devices and the screening reach 0.5, alone and on top of that of the
    -- hourly rate: no survey that is fetched is rejected, whatever it pays and whatever it asks
    -- of its participants; each is ELIGIBLE, and when the gate accepts it and the dispatcher
    -- answers that it was delivered, it is sent and nothing else is asked for.
    pub bootstrap_rejects_none :
        (s : Survey Float) (answers : Answers)
        → ((process_one N made s answers).0.rejected_count ≡ 0)
          × ((decision s).status ≡ eligible)
          × (process_one N made s (record { gate = ok accepted; dispatch = ok delivered }) ≡ (
            record no_counts { delivered_count = 1 },
            check_key (idempotency_key N made (stripped s))
                ∷ send (stripped s) (decision s).score (decision s).reasons
                ∷ [],
          ))
    bootstrap_rejects_none s answers = (
      ap (λ (r : Counts × List (Effect Float)). r.0.rejected_count)
            (process_one-stripped N made lawful_made s answers)
          ∙ rejected_none s answers,
      decision-eligible s,
      process_one-stripped N made lawful_made s _ ∙ sent s,
    )
