-- ===== src/Tests/Steps.antt =====
-- The theorems of the step-wise pipeline at a survey without restrictions.
use lidenal85_blip.Base.{All, ℕ, refl, true, false, none, some, [], ◌∷◌}
use lidenal85_blip.Contracts.Floats.{ok}
use lidenal85_blip.Pipeline.Orchestrator.{accepted, delivered}
use lidenal85_blip.Pipeline.Steps.{execute_decided, PipelineContext, StepAnswers, StepSettings}
use lidenal85_blip.Pipeline.Steps.Sending.{IsWarranted, decided_requests}
use lidenal85_blip.Tests.Data.{cents, construct, open_chat, user}

abbrev step_settings : StepSettings cents
step_settings = record { construct = construct; strict = false; min_score = 40; failed_at = 0 }

abbrev all_well : StepAnswers ℕ
all_well = record {
  fetch = ok ("prolific", open_chat ∷ []);
  gate = ok accepted;
  buffer = ok true;
  dispatcher = ok delivered;
  stores = λ i. true;
}

abbrev normalized : PipelineContext ℕ
normalized = record {
  cycle_id = "c1";
  raw_payload = none;
  user_profile = some user;
  normalization_result = none;
  survey = some open_chat;
  filter_result = none;
  is_delivered = false;
  errors = [];
}

decided_requests_example :
    All
      (IsWarranted cents step_settings all_well normalized user open_chat)
      (execute_decided cents step_settings all_well normalized).1
decided_requests_example =
    decided_requests cents step_settings all_well normalized open_chat user refl refl
