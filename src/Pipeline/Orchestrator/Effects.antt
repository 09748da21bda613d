-- ===== src/Pipeline/Orchestrator/Effects.antt =====
-- What a task asks of the gate, the dispatcher and the dead letter queue, as a table.
use lidenal85_blip.Base.{
  String, ◌<>◌, ◌≡◌, refl, ◌∙◌, Bool, true, false, Option, none, some, List, [], ◌∷◌, arith,
}
use lidenal85_blip.Contracts.Floats.{Floats, Outcome, ok, raise}
use lidenal85_blip.Contracts.Survey.{basic_survey, model_dump, Survey, DlqItem}
use lidenal85_blip.Contracts.Pydantic.{IsLawful}
use lidenal85_blip.Filter.Engine.{evaluate, FilterResult}
use lidenal85_blip.Normalization.Surveys.{stripped}
use lidenal85_blip.Pipeline.Orchestrator.{
  process_one, filter_and_send, to_dlq, idempotency_key, dlq_item, Answers, Effect, Counts,
  Settings, GateStatus, DispatchReply, accepted, duplicate, delivered, duplicate_message, failed,
  check_key, send, store, no_counts, is_rejected,
}
use lidenal85_blip.Pipeline.Orchestrator.Restrictions.{process_one-stripped}

-- The key of a survey at the gate: the same in every cycle.
abbrev pub survey_key : String → String → String
survey_key source id = "survey:" <> (source <> (":" <> id))

-- The reason that a delivery failed, if it did.
abbrev pub failure_of : Outcome DispatchReply → Option String
failure_of (ok delivered) = none
failure_of (ok duplicate_message) = some "dispatch_failed"
failure_of (ok (failed error)) = some error
failure_of (raise e) = some e.text

module _ (N : Floats) (settings : Settings N) (s : Survey N.Float) where
  open N use {Float}

  -- what the filter says of the survey as the orchestrator hands it on
  abbrev pub verdict : FilterResult Float
  verdict = evaluate N settings.min_score (stripped s) settings.profile settings.cycle_id

  abbrev pub key : String
  key = survey_key s.source s.id

  abbrev pub letter : String → DlqItem Float
  letter reason = record {
    cycle_id = settings.cycle_id;
    source = s.source;
    payload_type = "survey";
    raw_payload = model_dump (stripped s);
    reason = reason;
    failed_at = settings.failed_at;
  }

  abbrev pub message : Effect Float
  message = send (stripped s) verdict.score verdict.reasons

  -- The counts and the requests, in their order: whether the filter rejects the survey, the
  -- gate's answer, and the reason that the delivery failed.
  abbrev pub table : Bool → Outcome GateStatus → Option String → Counts × List (Effect Float)
  table true gate failure = (record no_counts { rejected_count = 1 }, [])
  table false (raise e) failure =
      (record no_counts { error_count = 1 }, check_key key ∷ store (letter e.text) ∷ [])
  table false (ok duplicate) failure =
      (record no_counts { duplicate_count = 1 }, check_key key ∷ [])
  table false (ok accepted) none =
      (record no_counts { delivered_count = 1 }, check_key key ∷ message ∷ [])
  table false (ok accepted) (some reason) =
      (record no_counts { error_count = 1 }, check_key key ∷ message ∷ store (letter reason) ∷ [])

  filter_and_send_lem :
      (rejects : Bool) (gate : Outcome GateStatus) (dispatch : Outcome DispatchReply)
      → is_rejected verdict.status ≡ rejects
      → filter_and_send N settings (stripped s) (record { gate = gate; dispatch = dispatch })
        ≡ table rejects gate (failure_of dispatch)
  unfolding filter_and_send to_dlq idempotency_key dlq_item basic_survey
  filter_and_send_lem true gate dispatch e = ground arith
  filter_and_send_lem false (raise x) dispatch e = ground arith
  filter_and_send_lem false (ok duplicate) dispatch e = ground arith
  filter_and_send_lem false (ok accepted) (ok delivered) e = ground arith
  filter_and_send_lem false (ok accepted) (ok duplicate_message) e = ground arith
  filter_and_send_lem false (ok accepted) (ok (failed error)) e = ground arith
  filter_and_send_lem false (ok accepted) (raise x) e = ground arith

  -- With a lawful validation, a task ends in one of five ways. If the filter rejects the survey,
  -- as it is after normalization, the task asks for nothing and counts it as rejected. Else it
  -- first asks the gate, once, for the key of the survey's source and identifier: if the gate
  -- raises, it asks the dead letter queue for a letter with the error and counts an error; if the
  -- gate answers DUPLICATE, it asks for nothing more and counts a duplicate; if it answers
  -- ACCEPTED, the survey is handed to the dispatcher once, with the filter's score and reasons,
  -- and the task counts a delivery, or else, if the dispatcher raises or answers anything but
  -- DELIVERED, asks the dead letter queue for a letter with the reason and counts an error.
  pub process_one-table :
      IsLawful N settings.construct
      → (answers : Answers)
      → process_one N settings s answers
        ≡ table (is_rejected verdict.status) answers.gate (failure_of answers.dispatch)
  process_one-table lawful answers =
      process_one-stripped N settings lawful s answers
      ∙ filter_and_send_lem (is_rejected verdict.status) answers.gate answers.dispatch refl
