-- ===== src/Delivery/Telegram.antt =====
-- `_send_telegram` of delivery/dispatcher.py: what an attempt to send makes of the answer of the
-- Telegram service. The request itself is the network's.
use lidenal85_blip.Base.{leb, if◌then◌else◌, ℕ, String, ◌<>◌, Bool, true, false, ◌||◌}
use lidenal85_blip.Base.Texts.{has_text}
use lidenal85_blip.Contracts.Value.{Integer, Value, natural, null, str, dict, end}
use lidenal85_blip.Contracts.Floats.{
  ◌>>=◌, ExceptionClass, Raised, Outcome, Floats, value_error, validation_error, ok, raise,
}
use lidenal85_blip.Adapters.Items.{get, Python}
use lidenal85_blip.Delivery.Retry.{Failure, Attempt}

-- What the request meets: an exception, or an answer with its status, whether its text is empty,
-- and its JSON, or the ValueError of a text that is none.
pub data Reply (F : Type 0) : Type 0 where
  not_answered : Failure → Reply F
  answered : ℕ → Bool → Outcome (Value F) → Reply F

-- the tests of `should_retry` on an exception
unfoldable pub failure_of : Bool → String → Failure
unfolding has_text
failure_of is_value_error text = record {
  is_value_error = is_value_error;
  is_forbidden = has_text "403" text || has_text "Forbidden" text;
  message = text;
}

abbrev is_value : ExceptionClass → Bool
is_value value_error = true
is_value validation_error = true
is_value c = false

unfoldable pub of_raised : Raised → Failure
unfolding failure_of
of_raised e = failure_of (is_value e.class_of) e.text

module _ (N : Floats) (py : Python N) where
  open N use {Float}

  -- `response.get("result", {}).get("message_id")`
  unfoldable pub message_id : Value Float → Outcome (Value Float)
  message_id response = do
    result ← get N py "result" (dict end) response
    get N py "message_id" null result

module _ (N : Floats) (py : Python N) (int_text : Integer → String) where
  open N use {Float}
  open py use {str_of}

  -- the text that is raised for an answer of status 400 or more
  described : Outcome (Value Float) → Failure
  described (ok description) = failure_of false ("Telegram API error: " <> str_of description)
  described (raise e) = of_raised e

  of_json : Outcome (Value Float) → Attempt (Value Float)
  of_json (ok v) = Attempt.returned v
  of_json (raise e) = Attempt.failed (of_raised e)

  unfoldable pub send_telegram : Reply Float → Attempt (Value Float)
  unfolding described of_json of_raised
  send_telegram (not_answered e) = Attempt.failed e
  send_telegram (answered status is_blank json) =
      let error_data = if is_blank then ok (dict end) else json in
      let default = str ("HTTP " <> int_text (natural status)) in
      if leb 400 status
      then Attempt.failed (described (error_data >>= λ v. get N py "description" default v))
      else of_json json
