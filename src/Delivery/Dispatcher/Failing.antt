-- ===== src/Delivery/Dispatcher/Failing.antt =====
-- How a call of the dispatcher ends, and what becomes of a delivery that fails.
use lidenal85_blip.Base.{
  leb, string_eq, ℕ, ◌<◌, String, ◌≡◌, refl, ap, ◌∙◌, Bool, true, false, ◌&&◌, Option, some, List,
  arith,
}
use lidenal85_blip.Base.Dict.{Dict, insert}
use lidenal85_blip.Contracts.Value.{of_entries, is_serialisable, fields_serialisable, Value}
use lidenal85_blip.Contracts.Floats.{Raised, Outcome, Floats, type_error, ok, raise}
use lidenal85_blip.Contracts.Survey.{Survey, dump_dlq_item, model_dump}
use lidenal85_blip.Contracts.Json.{Codec, IsLawful}
use lidenal85_blip.Redis.{ListStore}
use lidenal85_blip.Buffer.{push, pushed, stamped}
use lidenal85_blip.Delivery.Retry.{Attempt, Failure, default_config, execute_ends}
use lidenal85_blip.Pipeline.Orchestrator.{
  GateStatus, DispatchReply, accepted, duplicate, duplicate_message,
}
use lidenal85_blip.Delivery.Dispatcher.{
  message_of, message_key, dlq_event, after_push, fail, after_send, after_execute, after_gate,
  dispatch_survey, dispatch, Dispatcher, Surroundings, attempts,
}

module _ (N : Floats) (self : Dispatcher N) (world : Surroundings N) (codec : Codec N.Float)
    (S : ListStore codec.Text) where
  open N use {Float}
  open S use {Db}

  and-false : (b : Bool) → ((b && false) && true) ≡ false
  and-false true = refl
  and-false false = refl

  dlq_event_unserialisable :
      (s : Survey Float) (reason : String)
      → is_serialisable (stamped world.now (dlq_event N self world codec S s reason)) ≡ false
  unfolding stamped dlq_event dump_dlq_item insert of_entries string_eq is_serialisable
  dlq_event_unserialisable s reason = and-false (fields_serialisable (of_entries (model_dump s)))

  IsAnswered : Option (Db × Outcome DispatchReply) → Type 0
  IsAnswered o = (r : Db × Outcome DispatchReply) × (o ≡ some r)

  after_gate-IsAnswered :
      (s : Survey Float) (message : String) (d : Db) (g : Outcome GateStatus)
      → IsAnswered (after_gate N self world codec S s message d g)
  unfolding after_gate after_execute IsAnswered
  after_gate-IsAnswered s message d (ok duplicate) = ((d, ok duplicate_message), refl)
  after_gate-IsAnswered s message d (raise e) = ((d, raise e), refl)
  after_gate-IsAnswered s message d (ok accepted) =
      let (last, few, again, ends, e) =
        execute_ends default_config (attempts N self world codec S message) (omega arith) in
      (after_send N self world codec S s d (attempts N self world codec S message last), rw e refl)

  -- Whatever the validation, the gate and the attempts to send do, `dispatch` ends: the retries
  -- do not run on for ever.
  pub dispatch_ends :
      (fields : Dict String (Value Float)) (score : Float) (reasons : List String) (d : Db)
      → (r : Db × Outcome DispatchReply) × (dispatch N self world codec S fields score reasons d
          ≡ some r)
  unfolding dispatch dispatch_survey IsAnswered
  dispatch_ends fields score reasons d = go (self.python.construct fields)
    where
      go :
          (o : Outcome (Survey Float))
          → IsAnswered (dispatch_survey N self world codec S score reasons d o)
      go (raise e) = ((d, raise e), refl)
      go (ok s) =
          let message = message_of N self world codec S s score reasons in
          after_gate-IsAnswered s message d
            (world.gate (message_key N self world codec S s message))

  fail_raises :
      (lawful : IsLawful codec) (s : Survey Float) (error : String) (d : Db)
      → self.has_buffer ≡ true
      → S.llen self.buffer_key d < self.buffer_size
      → (e : Raised) × (fail N self world codec S s error d ≡ (d, raise e))
        × (e.class_of ≡ type_error)
  unfolding fail after_push push pushed
  fail_raises lawful s error d buffer room =
      let event = stamped world.now (dlq_event N self world codec S s error) in
      let (e, raises, class) = lawful.dumps_raises event (dlq_event_unserialisable s error) in
      let free : leb self.buffer_size (S.llen self.buffer_key d) ≡ false = ground arith in
      (e, simp (buffer, free, raises), class)

  -- With a lawful codec: when the validation and the gate accept the survey, there is a buffer,
  -- every attempt to send it fails and the buffer has room, then `dispatch` raises a TypeError,
  -- instead of answering FAILED, and the buffer is as it was.
  pub dispatch_raises :
      (lawful : IsLawful codec) (fields : Dict String (Value Float)) (s : Survey Float)
      (score : Float) (reasons : List String) (d : Db)
      → self.python.construct fields ≡ ok s
      → world.gate
          (message_key N self world codec S s (message_of N self world codec S s score reasons))
        ≡ ok accepted
      → ((i : ℕ)
          → (e : Failure) × (attempts N self world codec S
                (message_of N self world codec S s score reasons)
                i
              ≡ Attempt.failed e))
      → self.has_buffer ≡ true
      → S.llen self.buffer_key d < self.buffer_size
      → (e : Raised) × (dispatch N self world codec S fields score reasons d ≡ some (d, raise e))
        × (e.class_of ≡ type_error)
  unfolding dispatch dispatch_survey after_gate after_execute after_send
  dispatch_raises lawful fields s score reasons d valid fresh fails buffer room =
      let message = message_of N self world codec S s score reasons in
      let (last, few, again, ends, made) =
        execute_ends default_config (attempts N self world codec S message) (omega arith) in
      let (f, failing) = fails last in
      let (e, raises, class) = fail_raises lawful s f.message d buffer room in
      let sent : after_send N self world codec S s d (attempts N self world codec S message last)
          ≡ fail N self world codec S s f.message d =
        rw failing refl in
      (e, rw (valid, fresh, made) (ap some (sent ∙ raises)), class)
