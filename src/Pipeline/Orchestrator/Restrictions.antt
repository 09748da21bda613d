-- ===== src/Pipeline/Orchestrator/Restrictions.antt =====
-- pipeline/orchestrator.py: how a task depends on the restrictions of its survey.
use lidenal85_blip.Base.{
  String, ◌<>◌, ◌≡◌, refl, sym, ap, ◌∙◌, true, false, some, List, [], ◌∷◌, arith,
}
use lidenal85_blip.Contracts.Floats.{Floats, ok}
use lidenal85_blip.Contracts.Survey.{basic_survey, model_dump, Survey}
use lidenal85_blip.Contracts.Pydantic.{IsLawful}
use lidenal85_blip.Filter.{
  no_country_restriction, no_device_restriction, no_screening_required, check_country, check_device,
  check_screening,
}
use lidenal85_blip.Normalization.Surveys.{stripped, normalize-model_dump}
use lidenal85_blip.Normalization.{conclude_survey, warnings_of, status_of}
use lidenal85_blip.Pipeline.Orchestrator.{
  filter_and_send, normalized, process_one, Answers, Settings, is_invalid, rebind, rebuilt,
}

module _ (N : Floats) (settings : Settings N) (lawful : IsLawful N settings.construct) where
  open N use {Float}
  open settings use {construct, strict}

  not_invalid : (ws : List String) → is_invalid (status_of N construct strict ws) ≡ false
  not_invalid [] = refl
  not_invalid (w ∷ ws) = ground arith

  rebind-model_dump :
      (s t : Survey Float) (answers : Answers)
      → rebind N settings s (some (model_dump t)) answers ≡ filter_and_send N settings t answers
  unfolding rebind rebuilt model_dump
  rebind-model_dump s t answers = ground (arith, lawful.construct-model_dump t)

  normalized-stripped :
      (s t : Survey Float) (answers : Answers)
      → normalized N settings s (ok (conclude_survey N construct strict (some t))) answers
        ≡ filter_and_send N settings t answers
  unfolding normalized
  normalized-stripped s t answers =
      rw (not_invalid (warnings_of N construct t)) (rebind-model_dump s t answers)

  -- A task handles a survey as if all but its identifier, title, payout, duration and source were
  -- at their defaults, whatever answers it gets.
  pub process_one-stripped :
      (s : Survey Float) (answers : Answers)
      → process_one N settings s answers ≡ filter_and_send N settings (stripped s) answers
  unfolding process_one
  process_one-stripped s answers =
      rw (normalize-model_dump N construct lawful strict ("raw_" <> s.id) s.source s)
        (normalized-stripped s (stripped s) answers)

  -- With a validation that is lawful, two surveys that differ only in their country, devices,
  -- eligibility criteria, address, description, places and deadline are handled alike: with the
  -- same counts, requests and messages.
  pub restrictions_ignored :
      (s t : Survey Float) (answers : Answers)
      → stripped s ≡ stripped t
      → process_one N settings s answers ≡ process_one N settings t answers
  restrictions_ignored s t answers same =
      process_one-stripped s answers
      ∙ ap (λ r. filter_and_send N settings r answers) same
      ∙ sym (process_one-stripped t answers)

  -- In the orchestrator the country, the device and the screening rule pass for every survey.
  pub restrictions_pass :
      (s : Survey Float)
      → (check_country N (stripped s) settings.profile ≡ (true, no_country_restriction))
        × (check_device N (stripped s) settings.profile ≡ (true, no_device_restriction))
        × (check_screening N (stripped s) settings.profile ≡ (true, no_screening_required))
  unfolding check_country check_device check_screening basic_survey
  restrictions_pass s = (refl, refl, refl)
