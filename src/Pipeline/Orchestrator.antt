-- ===== src/Pipeline/Orchestrator.antt =====
-- pipeline/orchestrator.py. What the gate and the dispatcher answer to a survey's task is given,
-- and what the task asks of them is listed: so the tasks of one `asyncio.gather` may interleave
-- at will.
pub mod Totals
pub mod Effects
pub mod Restrictions
pub mod Lost
pub mod Apart
use lidenal85_blip.Base.{
  if◌then◌else◌, length, ℕ, ◌+◌, String, ◌<>◌, Bool, true, false, Option, none, some, List, [], ◌∷◌,
  ◌++◌,
}
use lidenal85_blip.Base.Dict.{Dict}
use lidenal85_blip.Contracts.Value.{Value}
use lidenal85_blip.Contracts.Floats.{Outcome, Floats, ok, raise}
use lidenal85_blip.Contracts.Survey.{model_dump, Survey, UserProfile, DlqItem}
use lidenal85_blip.Contracts.Pydantic.{Pydantic}
use lidenal85_blip.Filter.Engine.{FilterResult, Line, Status, evaluate, rejected}
use lidenal85_blip.Normalization.{
  NormalizationResult, NormalizationStatus, normalize, invalid, RawPayload,
}

-- The `status` of the gate's and of the dispatcher's answer.
pub data GateStatus : Type 0 where
  accepted duplicate : GateStatus

pub data DispatchReply : Type 0 where
  delivered duplicate_message : DispatchReply
  failed : String → DispatchReply

-- The answers that one task gets, if it asks.
pub record Answers : Type 0 where
  pub gate : Outcome GateStatus
  pub dispatch : Outcome DispatchReply

-- What one task asks of the gate, the dispatcher and the dead letter queue.
pub data Effect (F : Type 0) : Type 0 where
  check_key : String → Effect F
  send : Survey F → F → List (Line F) → Effect F
  store : DlqItem F → Effect F

-- The dict that `_process_one` returns.
pub record Counts : Type 0 where
  pub delivered_count : ℕ
  pub rejected_count : ℕ
  pub duplicate_count : ℕ
  pub error_count : ℕ

abbrev pub no_counts : Counts
no_counts = record { delivered_count = 0; rejected_count = 0; duplicate_count = 0; error_count = 0 }

-- What the orchestrator is built with, and what `run` and the clock add.
pub record Settings (N : Floats) : Type 0 where
  pub construct : Pydantic N
  pub strict : Bool
  pub min_score : N.Float
  pub profile : UserProfile N.Float
  pub cycle_id : String
  pub failed_at : ℕ

abbrev pub is_duplicate : GateStatus → Bool
is_duplicate duplicate = true
is_duplicate accepted = false

abbrev pub is_rejected : Status → Bool
is_rejected Status.rejected = true
is_rejected _ = false

abbrev pub is_invalid : NormalizationStatus → Bool
is_invalid NormalizationStatus.invalid = true
is_invalid _ = false

module _ (N : Floats) (settings : Settings N) where
  open N use {Float}
  open settings use {construct, strict, min_score, profile, cycle_id, failed_at}

  unfoldable pub idempotency_key : Survey Float → String
  idempotency_key s = "survey:" <> (s.source <> (":" <> s.id))

  -- `_to_dlq`; what the storage raises is caught there
  unfoldable pub dlq_item : Survey Float → String → DlqItem Float
  dlq_item s reason = record {
    cycle_id = cycle_id;
    source = s.source;
    payload_type = "survey";
    raw_payload = model_dump s;
    reason = reason;
    failed_at = failed_at;
  }

  unfoldable pub to_dlq : Survey Float → String → List (Effect Float) → Counts × List (Effect Float)
  unfolding dlq_item
  to_dlq s reason before =
      (record no_counts { error_count = 1 }, before ++ store (dlq_item s reason) ∷ [])

  -- after `self.dispatcher.dispatch`; the reply DUPLICATE has no "error"
  dispatched :
      Survey Float → List (Effect Float) → Outcome DispatchReply → Counts × List (Effect Float)
  dispatched s before (ok delivered) = (record no_counts { delivered_count = 1 }, before)
  dispatched s before (ok duplicate_message) = to_dlq s "dispatch_failed" before
  dispatched s before (ok (failed error)) = to_dlq s error before
  dispatched s before (raise e) = to_dlq s e.text before

  -- after `self.idempotency_gate.check_and_set`
  gated :
      Survey Float
      → FilterResult Float
      → Answers
      → Outcome GateStatus
      → Counts × List (Effect Float)
  gated s f answers (ok status) =
      let asked = check_key (idempotency_key s) in
      if is_duplicate status
      then (record no_counts { duplicate_count = 1 }, asked ∷ [])
      else dispatched s (asked ∷ send s f.score f.reasons ∷ []) answers.dispatch
  gated s f answers (raise e) = to_dlq s e.text (check_key (idempotency_key s) ∷ [])

  -- from the filter on
  unfoldable pub filter_and_send : Survey Float → Answers → Counts × List (Effect Float)
  unfolding gated dispatched to_dlq
  filter_and_send s answers =
      let f = evaluate N min_score s profile cycle_id in
      if is_rejected f.status
      then (record no_counts { rejected_count = 1 }, [])
      else gated s f answers answers.gate

  -- `survey = Survey(**norm.validated_survey)`
  unfoldable pub rebuilt :
      Survey Float → Outcome (Survey Float) → Answers → Counts × List (Effect Float)
  rebuilt s (ok s') answers = filter_and_send s' answers
  rebuilt s (raise e) answers = to_dlq s e.text []

  unfoldable pub rebind :
      Survey Float → Option (Dict String (Value Float)) → Answers → Counts × List (Effect Float)
  rebind s none answers = filter_and_send s answers
  rebind s (some []) answers = filter_and_send s answers
  rebind s (some (entry ∷ d)) answers = rebuilt s (construct (entry ∷ d)) answers

  -- after `self.normalization_engine.normalize`
  unfoldable pub normalized :
      Survey Float → Outcome (NormalizationResult Float) → Answers → Counts × List (Effect Float)
  normalized s (ok norm) answers =
      if is_invalid norm.status
      then (record no_counts { rejected_count = 1 }, [])
      else rebind s norm.validated_survey answers
  normalized s (raise e) answers = to_dlq s e.text []

  -- the `RawPayload` of a survey
  unfoldable pub raw_payload : Survey Float → RawPayload Float
  raw_payload s = record {
    payload_id = "raw_" <> s.id;
    source = s.source;
    raw_content = model_dump s;
  }

  unfoldable pub process_one : Survey Float → Answers → Counts × List (Effect Float)
  unfolding raw_payload
  process_one s answers = normalized s (normalize N construct strict (raw_payload s)) answers

-- The dict that `run` fills.
pub record Summary : Type 0 where
  pub cycle_id : String
  pub fetched : ℕ
  pub delivered_total : ℕ
  pub rejected_total : ℕ
  pub duplicates : ℕ
  pub errors : ℕ

-- What `run` returns: the dict itself where it returns early, and else a `PipelineRunResult`.
pub data RunReturn : Type 0 where
  plain wrapped : Summary → RunReturn

abbrev pub summary_of : RunReturn → Summary
summary_of (plain s) = s
summary_of (wrapped s) = s

-- What `asyncio.gather(…, return_exceptions=True)` holds of a task.
pub data TaskResult : Type 0 where
  counts : Counts → TaskResult
  task_exception : TaskResult

unfoldable pub add_result : TaskResult → Summary → Summary
add_result task_exception s = record s { errors = s.errors + 1 }
add_result (counts c) s = record s {
  delivered_total = s.delivered_total + c.delivered_count;
  rejected_total = s.rejected_total + c.rejected_count;
  duplicates = s.duplicates + c.duplicate_count;
  errors = s.errors + c.error_count;
}

unfoldable pub add_results : List TaskResult → Summary → Summary
add_results [] s = s
add_results (r ∷ rs) s = add_results rs (add_result r s)

module _ (N : Floats) (settings : Settings N) where
  open N use {Float}
  open settings use {cycle_id}

  unfoldable pub empty_summary : Summary
  empty_summary = record {
    cycle_id = cycle_id;
    fetched = 0;
    delivered_total = 0;
    rejected_total = 0;
    duplicates = 0;
    errors = 0;
  }

  -- the tasks, each with the answers that it gets
  unfoldable pub gather : List (Survey Float × Answers) → List TaskResult
  gather [] = []
  gather ((s, answers) ∷ tasks) = counts (process_one N settings s answers).0 ∷ gather tasks

  run_fetched : List (Survey Float × Answers) → RunReturn
  run_fetched [] = plain empty_summary
  run_fetched (task ∷ tasks) = wrapped (
      add_results (gather (task ∷ tasks))
        (record empty_summary { fetched = length (task ∷ tasks) }))

  -- the surveys that `fetch_surveys` returns, with their answers, or its exception
  unfoldable pub run : Outcome (List (Survey Float × Answers)) → RunReturn
  unfolding run_fetched empty_summary
  run (raise e) = plain (record empty_summary { errors = 1 })
  run (ok tasks) = run_fetched tasks
