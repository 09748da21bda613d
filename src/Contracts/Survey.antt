-- ===== src/Contracts/Survey.antt =====
-- contracts/survey.py, contracts/user.py, contracts/dlq.py and contracts/cycle.py: the models
-- that travel through the pipeline, over the type `F` of floats.
use lidenal85_blip.Base.{if◌then◌else◌, ℕ, String, Bool, not, Option, none, some, List, [], ◌∷◌}
use lidenal85_blip.Base.Dict.{Dict}
use lidenal85_blip.Contracts.Value.{
  of_entries, of_strings, Integer, Value, Fields, natural, null, int, float, str, datetime, list,
  dict, end,
}
use lidenal85_blip.Contracts.Floats.{Floats, is_positive}

pub record Survey (F : Type 0) : Type 0 where
  pub id : String
  pub title : String
  pub payout : F
  pub duration_minutes : Integer
  pub source : String
  pub url : String
  pub description : String
  pub places_available : Option Integer
  pub deadline : Option String
  pub device_requirements : List String
  pub eligibility_criteria : Fields F
  pub country : Option String
  pub schema_version : String

-- `Survey(id=…, title=…, payout=…, duration_minutes=…, source=…, schema_version="v1")`: every
-- other field has its default
unfoldable pub basic_survey : {F : Type 0} → String → String → F → Integer → String → Survey F
basic_survey id title payout duration_minutes source = record {
  id = id;
  title = title;
  payout = payout;
  duration_minutes = duration_minutes;
  source = source;
  url = "";
  description = "";
  places_available = none;
  deadline = none;
  device_requirements = [];
  eligibility_criteria = end;
  country = none;
  schema_version = "v1";
}

unfoldable pub option_value : {F A : Type 0} → (A → Value F) → Option A → Value F
option_value f none = null
option_value f (some a) = f a

-- pydantic's `model_dump`
unfoldable pub model_dump : {F : Type 0} → Survey F → Dict String (Value F)
unfolding option_value
model_dump s =
    ("id", str s.id)
    ∷ ("title", str s.title)
    ∷ ("payout", float s.payout)
    ∷ ("duration_minutes", int s.duration_minutes)
    ∷ ("source", str s.source)
    ∷ ("url", str s.url)
    ∷ ("description", str s.description)
    ∷ ("places_available", option_value int s.places_available)
    ∷ ("deadline", option_value str s.deadline)
    ∷ ("device_requirements", list (of_strings s.device_requirements))
    ∷ ("eligibility_criteria", dict s.eligibility_criteria)
    ∷ ("country", option_value str s.country)
    ∷ ("schema_version", str s.schema_version)
    ∷ []

pub record UserProfile (F : Type 0) : Type 0 where
  pub user_id : String
  pub country : String
  pub min_hourly_rate : F
  pub allowed_devices : List String
  pub demographics : Fields F
  pub preferred_sources : List String
  pub max_duration_minutes : Option Integer
  pub notifications_enabled : Bool
  pub profile_version : String

pub record DlqItem (F : Type 0) : Type 0 where
  pub cycle_id : String
  pub source : String
  pub payload_type : String
  pub raw_payload : Dict String (Value F)
  pub reason : String
  pub failed_at : ℕ

unfoldable pub dump_dlq_item : {F : Type 0} → DlqItem F → Dict String (Value F)
dump_dlq_item i =
    ("cycle_id", str i.cycle_id)
    ∷ ("source", str i.source)
    ∷ ("payload_type", str i.payload_type)
    ∷ ("raw_payload", dict (of_entries i.raw_payload))
    ∷ ("reason", str i.reason)
    ∷ ("failed_at", datetime i.failed_at)
    ∷ []

module _ (N : Floats) where
  open N use {Float, of_integer, decimal, mul, div}

  -- `Survey.hourly_rate`
  unfoldable pub hourly_rate : Survey Float → Float
  hourly_rate s =
      if not (is_positive s.duration_minutes)
      then decimal 0 1
      else mul (div s.payout (of_integer s.duration_minutes)) (of_integer (natural 60))
