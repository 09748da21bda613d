-- ===== src/Tests/Queue.antt =====
-- The theorems of the buffer, of the dead letter queue, of the dispatcher and of the HTTP client
-- at small runs. The texts of the codec are the values themselves.
use lidenal85_blip.Base.{}
use lidenal85_blip.Base.{
  eqb, if◌then◌else◌, string_eq, All, ℕ, zero, suc, String, ◌≡◌, refl, true, false, Option, none,
  some, List, [], ◌∷◌, arith,
}
use lidenal85_blip.Base.Dict.{Dict, insert, lookup, has}
use lidenal85_blip.Contracts.Value.{of_entries, is_serialisable, Integer, Value, str}
use lidenal85_blip.Contracts.Floats.{Raised, type_error, ok, raise}
use lidenal85_blip.Contracts.Json.{Codec, IsLawful}
use lidenal85_blip.Redis.{ListStore}
use lidenal85_blip.Buffer.{is_truthy, stamped, push, pop_batch}
use lidenal85_blip.Buffer.Queue.{Encodes, push_newest, pop_batch_oldest}
use lidenal85_blip.Adapters.Http.{Answer, response, timeout, request}
use lidenal85_blip.Adapters.Http.Attempts.{Ends, request-Ends}
use lidenal85_blip.Delivery.Retry.{Failure}
use lidenal85_blip.Adapters.Items.{Python}
use lidenal85_blip.Delivery.Telegram.{send_telegram, not_answered}
use lidenal85_blip.Delivery.Dispatcher.{Dispatcher, Surroundings, dispatch, attempts}
use lidenal85_blip.Delivery.Dispatcher.Failing.{dispatch_raises}
use lidenal85_blip.Pipeline.Orchestrator.{accepted}
use lidenal85_blip.Tests.Data.{cents, construct, survey_of}
use lidenal85_blip.Tests.Formats.{dollars}
use lidenal85_blip.Tests.Store.{list_memory, list_memory-IsListLawful}

abbrev not_written : Raised
not_written = record {
  class_of = type_error;
  text = "Object of type datetime is not JSON serializable";
}

abbrev pub plain_text : Codec ℕ
plain_text = record {
  Text = Value ℕ;
  dumps = λ v. if is_serialisable v then ok v else raise not_written;
  loads = λ v. some v;
  is_blank = λ v. false;
}

pub plain_text-IsLawful : IsLawful plain_text
plain_text-IsLawful = record {
  dumps_ok = λ v plain. (v, rw plain refl, refl, refl);
  dumps_raises = λ v bad. (not_written, rw bad refl, refl);
}

abbrev pub store_of_lists : ListStore (Value ℕ)
store_of_lists = list_memory (Value ℕ)

abbrev pub empty : String → List (Value ℕ)
empty k = []

abbrev event : Dict String (Value ℕ)
event = ("type", str "survey_notification") ∷ []

event_plain : is_serialisable {F = ℕ} (stamped "t0" event) ≡ true
unfolding stamped insert of_entries string_eq is_serialisable
event_plain = refl

nothing_held : Encodes plain_text [] []
unfolding Encodes
nothing_held = refl

push_newest_example :
    ((push cents plain_text store_of_lists "survey_buffer" 2 "t0" event empty).1 ≡ ok true)
    × Encodes plain_text (stamped "t0" event ∷ []) (
        (push cents plain_text store_of_lists "survey_buffer" 2 "t0" event empty).0 "survey_buffer")
push_newest_example =
    push_newest cents plain_text store_of_lists "survey_buffer" 2
      (list_memory-IsListLawful (Value ℕ)) plain_text-IsLawful "t0" event [] empty event_plain
      nothing_held (omega arith)

abbrev two : String → List (Value ℕ)
two k = str "b" ∷ str "a" ∷ []

two_held : Encodes plain_text (str "a" ∷ str "b" ∷ []) (str "b" ∷ str "a" ∷ [])
unfolding Encodes
two_held = (str "b" ∷ [], str "a", refl, refl, refl, ([], str "b", refl, refl, refl, refl))

both_truthy : All (λ (v : Value ℕ). is_truthy cents v ≡ true) (str "a" ∷ str "b" ∷ [])
unfolding is_truthy string_eq
both_truthy = (refl, (refl, tt))

pop_batch_oldest_example :
    ((pop_batch cents plain_text store_of_lists "survey_buffer" 2 1 two).1 ≡ str "a" ∷ [])
    × Encodes plain_text
        (str "b" ∷ [])
        ((pop_batch cents plain_text store_of_lists "survey_buffer" 2 1 two).0 "survey_buffer")
pop_batch_oldest_example =
    pop_batch_oldest cents plain_text store_of_lists "survey_buffer" 2
      (list_memory-IsListLawful (Value ℕ)) 1 (str "a" ∷ str "b" ∷ []) two both_truthy two_held

abbrev no_number : String → Option Integer
no_number s = none

abbrev replies : ℕ → Answer
replies zero = timeout
replies (suc n) = response (record { status_code = 200; retry_after = none; text = "{}" })

request-Ends_example : Ends no_number 5 replies 0 3 (request no_number 3 5 replies)
request-Ends_example = request-Ends no_number 5 replies 3

-- A dispatcher with a buffer, and a service that is down.
abbrev python : Python cents
python = record {
  construct = construct;
  str_of = λ v. "text";
  is_zero = λ x. eqb x 0;
  text_of = λ c v. "error";
  timestamp = "1700000000";
}

abbrev pub self : Dispatcher cents
self = record {
  python = python;
  formats = dollars;
  hash_text = λ t. t;
  has_buffer = true;
  buffer_key = "survey_buffer";
  buffer_size = 2;
}

abbrev down : Failure
down = record { is_value_error = false; is_forbidden = false; message = "HTTP 502" }

abbrev pub outage : Surroundings cents
outage = record {
  gate = λ k. ok accepted;
  send = λ text i. not_answered down;
  now = "t0";
  failed_at = 7;
}

abbrev fields : Dict String (Value ℕ)
fields = ("id", str "s1") ∷ ("title", str "Chat") ∷ []

built : construct fields ≡ ok (survey_of fields)
unfolding has lookup string_eq
built = refl

dispatch_raises_example :
    (e : Raised) × (dispatch cents self outage plain_text store_of_lists fields 80 [] empty
      ≡ some (empty, raise e))
    × (e.class_of ≡ type_error)
unfolding attempts send_telegram
dispatch_raises_example =
    dispatch_raises cents self outage plain_text store_of_lists plain_text-IsLawful fields
      (survey_of fields) 80 [] empty built refl (λ i. (down, refl)) refl (omega arith)
