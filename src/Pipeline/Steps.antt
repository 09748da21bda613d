-- ===== src/Pipeline/Steps.antt =====
-- pipeline/steps.py over pipeline/context.py: the seven steps of the step-wise pipeline. What the
-- adapter, the gate, the buffer, the dispatcher and the dead letter queue answer is given, and a
-- step lists what it asks of them. Time stamps and identifiers for logging are left out.
pub mod Sending
use lidenal85_blip.Base.{
  if◌then◌else◌, ℕ, ◌+◌, String, ◌<>◌, Bool, true, false, Option, none, some, List, [], ◌∷◌, ◌++◌,
}
use lidenal85_blip.Base.Dict.{Dict}
use lidenal85_blip.Contracts.Value.{Value}
use lidenal85_blip.Contracts.Floats.{Outcome, Floats, type_error, ok, raise}
use lidenal85_blip.Contracts.Survey.{model_dump, Survey, UserProfile, DlqItem}
use lidenal85_blip.Contracts.Pydantic.{Pydantic}
use lidenal85_blip.Filter.Engine.{FilterResult, Line, Status, evaluate, eligible}
use lidenal85_blip.Normalization.{
  NormalizationResult, NormalizationStatus, RawPayload, normalize, valid, partial, invalid,
}
use lidenal85_blip.Pipeline.Orchestrator.{
  GateStatus, DispatchReply, accepted, duplicate, delivered, duplicate_message, failed,
}

pub data StepName : Type 0 where
  fetch_step normalize_step filter_step idempotency_step buffer_step dispatch_step dlq_step :
      StepName

-- An entry of `errors`.
pub record StepError : Type 0 where
  pub step : StepName
  pub error : String

pub record PipelineContext (F : Type 0) : Type 0 where
  pub cycle_id : String
  pub raw_payload : Option (RawPayload F)
  pub user_profile : Option (UserProfile F)
  pub normalization_result : Option (NormalizationResult F)
  pub survey : Option (Survey F)
  pub filter_result : Option (FilterResult F)
  pub is_delivered : Bool
  pub errors : List StepError

-- What a step asks of the gate, the buffer, the dispatcher and the dead letter queue.
pub data Request (F : Type 0) : Type 0 where
  check_key : String → Request F
  push : Survey F → F → List (Line F) → Request F
  dispatch : Survey F → F → List (Line F) → Request F
  store : DlqItem F → Request F

-- The answers: `fetch` with the source and the surveys, and of the dead letter queue whether it
-- stores the item with the given number or raises.
pub record StepAnswers (F : Type 0) : Type 0 where
  pub fetch : Outcome (String × List (Survey F))
  pub gate : Outcome GateStatus
  pub buffer : Outcome Bool
  pub dispatcher : Outcome DispatchReply
  pub stores : ℕ → Bool

pub record StepSettings (N : Floats) : Type 0 where
  pub construct : Pydantic N
  pub strict : Bool
  pub min_score : N.Float
  pub failed_at : ℕ

-- What a step leaves: the context, and its requests in order.
abbrev pub Step : Type 0 → Type 0
Step F = PipelineContext F → PipelineContext F × List (Request F)

unfoldable pub add_error : {F : Type 0} → StepName → String → PipelineContext F → PipelineContext F
add_error step error c = record c {
  errors = c.errors ++ (record { step = step; error = error }) ∷ [];
}

-- `result.status == "ELIGIBLE"`
unfoldable pub is_eligible : Status → Bool
is_eligible eligible = true
is_eligible _ = false

-- The survey and the decision of a context that the steps 4 to 6 act on.
unfoldable pub eligible_survey :
    {F : Type 0} → PipelineContext F → Option (Survey F × FilterResult F)
unfolding is_eligible
eligible_survey c = elim c.survey [
  | none ↦ none
  | some s ↦ elim c.filter_result [
    | none ↦ none
    | some r ↦ if is_eligible r.status then some (s, r) else none
  ]
]

module _ (N : Floats) (settings : StepSettings N) (answers : StepAnswers N.Float) where
  open N use {Float}
  open settings use {construct, strict, min_score, failed_at}

  -- `FetchStep.execute`
  unfoldable pub execute_fetch : Step Float
  unfolding add_error
  execute_fetch c = elim answers.fetch [
    | raise e ↦ (add_error fetch_step e.text c, [])
    | ok (source, []) ↦ (c, [])
    | ok (source, s ∷ ss) ↦ (
      record c {
        raw_payload =
            some
              (record { payload_id = "raw_" <> s.id; source = source; raw_content = model_dump s });
      },
      [],
    )
  ]

  -- `context.survey = Survey(**…)` inside the `try`
  keep_survey : PipelineContext Float → Outcome (Survey Float) → PipelineContext Float
  keep_survey c (ok s) = record c { survey = some s }
  keep_survey c (raise e) = add_error normalize_step e.text c

  -- `Survey(**None)` raises a TypeError
  rebuilt : Option (Dict String (Value Float)) → Outcome (Survey Float)
  rebuilt (some d) = construct d
  rebuilt none =
      raise (record { class_of = type_error; text = "argument after ** must be a mapping" })

  -- `if result.validated_survey:`
  partly_rebuilt :
      PipelineContext Float → Option (Dict String (Value Float)) → PipelineContext Float
  partly_rebuilt c none = c
  partly_rebuilt c (some []) = c
  partly_rebuilt c (some (entry ∷ d)) = keep_survey c (construct (entry ∷ d))

  -- by the status of the result
  after_normalize :
      NormalizationStatus
      → NormalizationResult Float
      → PipelineContext Float
      → PipelineContext Float
  after_normalize valid r c = keep_survey c (rebuilt r.validated_survey)
  after_normalize partial r c = partly_rebuilt c r.validated_survey
  after_normalize invalid r c = add_error normalize_step "Validation failed" c

  normalize_payload : RawPayload Float → PipelineContext Float → PipelineContext Float
  normalize_payload raw c = elim (normalize N construct strict raw) [
    | ok r ↦ after_normalize r.status r (record c { normalization_result = some r })
    | raise e ↦ add_error normalize_step e.text c
  ]

  -- `NormalizeStep.execute`; the errors in the text of the last message are left out
  unfoldable pub execute_normalize : Step Float
  unfolding normalize_payload after_normalize keep_survey rebuilt partly_rebuilt add_error
  execute_normalize c = elim c.raw_payload [
    | none ↦ (add_error normalize_step "No raw payload to normalize" c, [])
    | some raw ↦ (normalize_payload raw c, [])
  ]

  -- `FilterStep.execute`
  unfoldable pub execute_filter : Step Float
  unfolding add_error
  execute_filter c = elim c.survey [
    | none ↦ (add_error filter_step "No survey to filter" c, [])
    | some s ↦ elim c.user_profile [
      | none ↦ (add_error filter_step "No user profile available" c, [])
      | some p ↦ (record c { filter_result = some (evaluate N min_score s p c.cycle_id) }, [])
    ]
  ]

  after_gate : Outcome GateStatus → PipelineContext Float → PipelineContext Float
  after_gate (ok duplicate) c = record c { survey = none }
  after_gate (ok accepted) c = c
  after_gate (raise e) c = c

  -- `IdempotencyStep.execute`
  unfoldable pub execute_idempotency : Step Float
  unfolding after_gate
  execute_idempotency c = elim (eligible_survey c) [
    | none ↦ (c, [])
    | some (s, r) ↦ (after_gate answers.gate c, check_key ("survey:" <> s.id) ∷ [])
  ]

  after_buffer : Outcome Bool → PipelineContext Float → PipelineContext Float
  after_buffer (ok pushed) c =
      if pushed then c else add_error buffer_step "Buffer full, backpressure applied" c
  after_buffer (raise e) c = add_error buffer_step e.text c

  -- `BufferStep.execute`
  unfoldable pub execute_buffer : Step Float
  unfolding after_buffer add_error
  execute_buffer c = elim (eligible_survey c) [
    | none ↦ (c, [])
    | some (s, r) ↦ (after_buffer answers.buffer c, push s r.score r.reasons ∷ [])
  ]

  after_dispatch : Outcome DispatchReply → PipelineContext Float → PipelineContext Float
  after_dispatch (ok delivered) c = record c { is_delivered = true }
  after_dispatch (ok duplicate_message) c = add_error dispatch_step "Unknown error" c
  after_dispatch (ok (failed error)) c = add_error dispatch_step error c
  after_dispatch (raise e) c = add_error dispatch_step e.text c

  -- `DispatchStep.execute`
  unfoldable pub execute_dispatch : Step Float
  unfolding after_dispatch add_error
  execute_dispatch c = elim (eligible_survey c) [
    | none ↦ (c, [])
    | some (s, r) ↦ (after_dispatch answers.dispatcher c, dispatch s r.score r.reasons ∷ [])
  ]

  -- the items of the loop over `context.errors`; an exception of the storage ends it
  unfoldable pub store_items : PipelineContext Float → ℕ → List StepError → List (Request Float)
  store_items c i [] = []
  store_items c i (e ∷ es) =
      let rest = store_items c (i + 1) es in
      store (dlq_item c e) ∷ (if answers.stores i then rest else [])
    where
      source_of : Option (RawPayload Float) → String
      source_of none = "unknown"
      source_of (some raw) = raw.source

      dump_of : Option (Survey Float) → Dict String (Value Float)
      dump_of none = []
      dump_of (some s) = model_dump s

      name_of : StepName → String
      name_of fetch_step = "fetch"
      name_of normalize_step = "normalize"
      name_of filter_step = "filter"
      name_of idempotency_step = "idempotency"
      name_of buffer_step = "buffer"
      name_of dispatch_step = "dispatch"
      name_of dlq_step = "dlq"

      dlq_item : PipelineContext Float → StepError → DlqItem Float
      dlq_item c e = record {
        cycle_id = c.cycle_id;
        source = source_of c.raw_payload;
        payload_type = "survey";
        raw_payload = dump_of c.survey;
        reason = name_of e.step <> (": " <> e.error);
        failed_at = failed_at;
      }

  -- `DLQStep.execute`
  unfoldable pub execute_dlq : Step Float
  unfolding store_items
  execute_dlq c = (c, if c.is_delivered then [] else store_items c 0 c.errors)

  -- One step after another, with the requests of both.
  abbrev pub and_then : Step Float → Step Float → Step Float
  and_then f g c = let (c', asked) = f c in let (c'', asked') = g c' in (c'', asked ++ asked')

  -- The steps 3 to 6, and all of them, in the order of their numbers; no function of the package
  -- runs them one after another.
  unfoldable pub execute_decided : Step Float
  execute_decided =
      and_then execute_filter
        (and_then execute_idempotency (and_then execute_buffer execute_dispatch))

  unfoldable pub execute_all : Step Float
  unfolding execute_decided
  execute_all =
      and_then execute_fetch (and_then execute_normalize (and_then execute_decided execute_dlq))
