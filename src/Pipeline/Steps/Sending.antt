-- ===== src/Pipeline/Steps/Sending.antt =====
-- What the step-wise pipeline sends and stores.
use lidenal85_blip.Base.{
  if◌then◌else◌, length, All, ℕ, suc, ◌+◌, ◌<>◌, ◌≡◌, refl, ap, ◌≢◌, ◌↔◌, true, false, some, List,
  [], ◌∷◌, arith,
}
use lidenal85_blip.Contracts.Floats.{Floats, ok}
use lidenal85_blip.Contracts.Survey.{Survey, UserProfile}
use lidenal85_blip.Filter.Engine.{evaluate, eligible}
use lidenal85_blip.Pipeline.Orchestrator.{duplicate, delivered}
use lidenal85_blip.Pipeline.Steps.{
  StepAnswers, StepSettings, PipelineContext, StepError, Request, check_key, push, dispatch, store,
  is_eligible, eligible_survey, execute_filter, execute_idempotency, execute_buffer,
  execute_dispatch, execute_decided, execute_dlq, store_items,
}

module _ (N : Floats) (settings : StepSettings N) (answers : StepAnswers N.Float) where
  open N use {Float}
  open settings use {min_score}

  -- A request of the steps 3 to 6 on the context `c`: about its survey, which the filter found
  -- ELIGIBLE for its user, with the filter's score and reasons; what is pushed or dispatched was
  -- not answered DUPLICATE by the gate.
  pub IsWarranted :
      PipelineContext Float → UserProfile Float → Survey Float → Request Float → Type 0
  IsWarranted c p s (check_key k) =
      ((evaluate N min_score s p c.cycle_id).status ≡ eligible) × (k ≡ "survey:" <> s.id)
  IsWarranted c p s (push t x reasons) =
      ((evaluate N min_score s p c.cycle_id).status ≡ eligible)
      × (t ≡ s)
      × (x ≡ (evaluate N min_score s p c.cycle_id).score)
      × (reasons ≡ (evaluate N min_score s p c.cycle_id).reasons)
      × (answers.gate ≢ ok duplicate)
  IsWarranted c p s (dispatch t x reasons) =
      ((evaluate N min_score s p c.cycle_id).status ≡ eligible)
      × (t ≡ s)
      × (x ≡ (evaluate N min_score s p c.cycle_id).score)
      × (reasons ≡ (evaluate N min_score s p c.cycle_id).reasons)
      × (answers.gate ≢ ok duplicate)
  IsWarranted c p s (store i) = ⊥

  -- Whatever the steps 3 to 6 ask for is about the context's survey, which the filter found
  -- ELIGIBLE for its user: the gate is asked for its key, and it is pushed and dispatched with
  -- the filter's score and reasons only if the gate did not answer DUPLICATE. They store nothing.
  pub decided_requests :
      (c : PipelineContext Float) (s : Survey Float) (p : UserProfile Float)
      → c.survey ≡ some s
      → c.user_profile ≡ some p
      → All (IsWarranted c p s) (execute_decided N settings answers c).1
  unfolding execute_decided execute_filter execute_idempotency execute_buffer execute_dispatch
      eligible_survey is_eligible IsWarranted
  decided_requests c s p here profile = ground arith

  -- From a context in which nothing is delivered, the steps 3 to 6 mark it as delivered exactly
  -- when the filter finds the survey ELIGIBLE, the gate does not answer DUPLICATE and the
  -- dispatcher answers DELIVERED; an exception of the gate does not stop it.
  pub decided_delivers :
      (c : PipelineContext Float) (s : Survey Float) (p : UserProfile Float)
      → c.survey ≡ some s
      → c.user_profile ≡ some p
      → c.is_delivered ≡ false
      → ((execute_decided N settings answers c).0.is_delivered ≡ true) ↔ (
          ((evaluate N min_score s p c.cycle_id).status ≡ eligible)
          × (answers.gate ≢ ok duplicate)
          × (answers.dispatcher ≡ ok delivered))
  unfolding execute_decided execute_filter execute_idempotency execute_buffer execute_dispatch
      eligible_survey is_eligible
  decided_delivers c s p here profile undelivered = ground arith

  store_items-length :
      (c : PipelineContext Float) (i : ℕ) (es : List StepError)
      → ((j : ℕ) → answers.stores j ≡ true)
      → length (store_items N settings answers c i es) ≡ length es
  unfolding store_items
  store_items-length c i [] stores = refl
  store_items-length c i (e ∷ es) stores =
      rw (stores i) (ap suc (store_items-length c (i + 1) es stores))

  -- With a storage that does not raise, the last step stores one item for each error of a context
  -- that is not delivered, and none for one that is.
  pub execute_dlq_lem :
      (c : PipelineContext Float)
      → ((i : ℕ) → answers.stores i ≡ true)
      → length (execute_dlq N settings answers c).1
        ≡ (if c.is_delivered then 0 else length c.errors)
  unfolding execute_dlq
  execute_dlq_lem c stores = ground (arith, store_items-length c 0 c.errors stores)
