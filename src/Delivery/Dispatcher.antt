-- ===== src/Delivery/Dispatcher.antt =====
-- delivery/dispatcher.py: TelegramDispatcher.dispatch over the retry executor and the buffer.
-- Python's `hash` and what each attempt to send meets are given.
pub mod Failing
pub mod Thresholds
use lidenal85_blip.Base.{if◌then◌else◌, ℕ, String, ◌<>◌, Bool, Option, none, some, List, [], ◌∷◌}
use lidenal85_blip.Base.Dict.{Dict, insert}
use lidenal85_blip.Contracts.Value.{of_entries, is_serialisable, Value, str, dict}
use lidenal85_blip.Contracts.Floats.{Outcome, Floats, ok, raise}
use lidenal85_blip.Contracts.Survey.{model_dump, dump_dlq_item, Survey}
use lidenal85_blip.Contracts.Pydantic.{Pydantic}
use lidenal85_blip.Contracts.Json.{Codec, IsLawful}
use lidenal85_blip.Redis.{ListStore}
use lidenal85_blip.Buffer.{push, pushed, stamped}
use lidenal85_blip.Adapters.Items.{Python}
use lidenal85_blip.Delivery.Telegram.{send_telegram, message_id, Reply}
use lidenal85_blip.Delivery.Templates.{survey_eligible, survey_review, Formats}
use lidenal85_blip.Delivery.Retry.{Attempt, Execution, Failure, default_config, execute, returned}
use lidenal85_blip.Pipeline.Orchestrator.{
  GateStatus, DispatchReply, accepted, duplicate, delivered, duplicate_message, failed, raw_payload,
}

-- What the dispatcher is built with, how Python writes the values in its messages, and where its
-- buffer is, if it has one.
pub record Dispatcher (N : Floats) : Type 0 where
  pub python : Python N
  pub formats : Formats N.Float
  pub hash_text : String → String
  pub has_buffer : Bool
  pub buffer_key : String
  pub buffer_size : ℕ

-- What one call meets: the gate's answer to a key, what the attempts to send a text meet, and the
-- times of the clock.
pub record Surroundings (N : Floats) : Type 0 where
  pub gate : String → Outcome GateStatus
  pub send : String → ℕ → Reply N.Float
  pub now : String
  pub failed_at : ℕ

module _ (N : Floats) (self : Dispatcher N) (world : Surroundings N) (codec : Codec N.Float)
    (S : ListStore codec.Text) where
  open N use {Float, decimal, le}
  open S use {Db}

  unfoldable pub message_of : Survey Float → Float → List String → String
  message_of s score reasons =
      if le (decimal 7 1) score
      then survey_eligible N self.formats s score reasons
      else survey_review N self.formats s score reasons

  unfoldable pub message_key : Survey Float → String → String
  message_key s message = "telegram:" <> (s.id <> (":" <> self.hash_text message))

  -- the event of `_push_to_dlq`
  unfoldable pub dlq_event : Survey Float → String → Dict String (Value Float)
  dlq_event s reason =
      ("type", str "dlq")
      ∷ (
        "data",
        dict (
            of_entries (
              dump_dlq_item (record {
                cycle_id = "unknown";
                source = s.source;
                payload_type = "survey";
                raw_payload = model_dump s;
                reason = "delivery_failed: " <> reason;
                failed_at = world.failed_at;
              }))),
      )
      ∷ []

  unfoldable pub after_push : String → Db × Outcome Bool → Db × Outcome DispatchReply
  after_push error (d, ok b) = (d, ok (failed error))
  after_push error (d, raise e) = (d, raise e)

  -- the `except` of `dispatch`: what the push raises leaves `dispatch`
  unfoldable pub fail : Survey Float → String → Db → Db × Outcome DispatchReply
  unfolding after_push
  fail s error d =
      if self.has_buffer
      then after_push error
          (push N codec S self.buffer_key self.buffer_size world.now (dlq_event s error) d)
      else (d, ok (failed error))

  -- the attempts of the executor to send a text
  unfoldable pub attempts : String → ℕ → Attempt (Value Float)
  attempts message i = send_telegram N self.python self.formats.int_text (world.send message i)

  -- from the reading of the message's identifier, which stands in the `try`
  unfoldable pub sent_or_failed :
      Survey Float → Db → Outcome (Value Float) → Db × Outcome DispatchReply
  sent_or_failed s d (ok id) = (d, ok delivered)
  sent_or_failed s d (raise e) = fail s e.text d

  unfoldable pub after_send : Survey Float → Db → Attempt (Value Float) → Db × Outcome DispatchReply
  unfolding sent_or_failed
  after_send s d (Attempt.returned response) =
      sent_or_failed s d (message_id N self.python response)
  after_send s d (Attempt.failed e) = fail s e.message d

  unfoldable pub after_execute :
      Survey Float → Db → Option (Execution (Value Float)) → Option (Db × Outcome DispatchReply)
  after_execute s d none = none
  after_execute s d (some x) = some (after_send s d x.outcome)

  unfoldable pub after_gate :
      Survey Float → String → Db → Outcome GateStatus → Option (Db × Outcome DispatchReply)
  after_gate s message d (ok duplicate) = some (d, ok duplicate_message)
  after_gate s message d (ok accepted) =
      after_execute s d (execute default_config (attempts message))
  after_gate s message d (raise e) = some (d, raise e)

  unfoldable pub dispatch_survey :
      Float → List String → Db → Outcome (Survey Float) → Option (Db × Outcome DispatchReply)
  dispatch_survey score reasons d (raise e) = some (d, raise e)
  dispatch_survey score reasons d (ok s) =
      let message = message_of s score reasons in
      after_gate s message d (world.gate (message_key s message))

  -- `dispatch`; none only where the loop of the retry executor runs out of fuel
  unfoldable pub dispatch :
      Dict String (Value Float) → Float → List String → Db → Option (Db × Outcome DispatchReply)
  unfolding dispatch_survey after_gate after_execute after_send
  dispatch fields score reasons d = dispatch_survey score reasons d (self.python.construct fields)
