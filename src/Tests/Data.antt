-- ===== src/Tests/Data.antt =====
-- Concrete parameters for the pipeline: floats that are hundredths, and a validation of surveys.
use lidenal85_blip.Base.{
  ltb, leb, if◌then◌else◌, string_eq, ℕ, ◌+◌, ◌-◌, ◌*◌, ◌/◌, ◌^◌, String, ◌≡◌, refl, true, false,
  Option, none, some, List, [], ◌∷◌,
}
use lidenal85_blip.Pipeline.Orchestrator.{Answers, Settings, accepted, delivered}
use lidenal85_blip.Base.Dict.{Dict, lookup, has}
use lidenal85_blip.Contracts.Value.{
  of_strings, Integer, Value, Items, Fields, natural, negative, int, float, str, list, dict, nil,
  cons, end,
}
use lidenal85_blip.Contracts.Floats.{Floats, validation_error, ok, raise}
use lidenal85_blip.Contracts.Survey.{basic_survey, model_dump, Survey, option_value, UserProfile}
use lidenal85_blip.Contracts.Pydantic.{Pydantic, IsLawful}

abbrev pub cents : Floats
cents = record {
  Float = ℕ;
  of_integer = λ i. elim i [ natural n ↦ 100 * n | negative n ↦ 0 ];
  decimal = λ digits places. digits * 100 / 10 ^ places;
  add = ◌+◌;
  sub = ◌-◌;
  mul = λ a b. a * b / 100;
  div = λ a b. a * 100 / b;
  le = leb;
  lt = ltb;
  round4 = λ x. x;
  parse_float = λ s. none;
  parse_int = λ s. none;
  is_nan = λ x. false;
  is_infinite = λ x. false;
  truncate = λ x. natural (x / 100);
  message = λ c v. "could not convert";
  upper = λ s. s;
}

abbrev text_of : Option (Value ℕ) → String
text_of (some (str s)) = s
text_of _ = ""

abbrev optional_text : Option (Value ℕ) → Option String
optional_text (some (str s)) = some s
optional_text _ = none

abbrev float_of : Option (Value ℕ) → ℕ
float_of (some (float x)) = x
float_of _ = 0

abbrev int_of : Option (Value ℕ) → Integer
int_of (some (int n)) = n
int_of _ = natural 0

abbrev optional_int : Option (Value ℕ) → Option Integer
optional_int (some (int n)) = some n
optional_int _ = none

abbrev strings : Items ℕ → List String
strings nil = []
strings (cons (str s) vs) = s ∷ strings vs
strings (cons _ vs) = strings vs

abbrev strings_of : Option (Value ℕ) → List String
strings_of (some (list vs)) = strings vs
strings_of _ = []

abbrev fields_of : Option (Value ℕ) → Fields ℕ
fields_of (some (dict fs)) = fs
fields_of _ = end

abbrev pub survey_of : Dict String (Value ℕ) → Survey ℕ
survey_of d = record {
  id = text_of (lookup "id" d);
  title = text_of (lookup "title" d);
  payout = float_of (lookup "payout" d);
  duration_minutes = int_of (lookup "duration_minutes" d);
  source = text_of (lookup "source" d);
  url = text_of (lookup "url" d);
  description = text_of (lookup "description" d);
  places_available = optional_int (lookup "places_available" d);
  deadline = optional_text (lookup "deadline" d);
  device_requirements = strings_of (lookup "device_requirements" d);
  eligibility_criteria = fields_of (lookup "eligibility_criteria" d);
  country = optional_text (lookup "country" d);
  schema_version = text_of (lookup "schema_version" d);
}

-- a survey has an identifier
abbrev pub construct : Pydantic cents
construct d =
    if has "id" d
    then ok (survey_of d)
    else raise (record { class_of = validation_error; text = "id: field required" })

strings-of_strings : (ss : List String) → strings (of_strings ss) ≡ ss
unfolding of_strings
strings-of_strings [] = refl
strings-of_strings (s ∷ ss) = rw (strings-of_strings ss)

optional_int-value : (o : Option Integer) → optional_int (some (option_value int o)) ≡ o
unfolding option_value
optional_int-value none = refl
optional_int-value (some n) = refl

optional_text-value : (o : Option String) → optional_text (some (option_value str o)) ≡ o
unfolding option_value
optional_text-value none = refl
optional_text-value (some t) = refl

construct-dump : (s : Survey ℕ) → construct (model_dump s) ≡ ok s
unfolding model_dump lookup has string_eq
construct-dump s =
    rw
      (
        optional_int-value s.places_available,
        optional_text-value s.deadline,
        optional_text-value s.country,
        strings-of_strings s.device_requirements,
      )
      refl

pub construct-IsLawful : IsLawful cents construct
unfolding basic_survey lookup has string_eq
construct-IsLawful = record {
  construct-basic = λ id title source payout duration. refl;
  construct-model_dump = construct-dump;
}

-- A survey, a profile and the parts of an orchestrator.
abbrev pub chat : Survey ℕ
chat = record {
  id = "s1";
  title = "Chat";
  payout = 500;
  duration_minutes = natural 20;
  source = "prolific";
  url = "https://example.org/s1";
  description = "";
  places_available = some (natural 3);
  deadline = none;
  device_requirements = "desktop" ∷ [];
  eligibility_criteria = end;
  country = some "US";
  schema_version = "v1";
}

-- the same survey without its restrictions
abbrev pub open_chat : Survey ℕ
open_chat = record chat { device_requirements = []; country = none; url = "" }

abbrev pub user : UserProfile ℕ
user = record {
  user_id = "u1";
  country = "DE";
  min_hourly_rate = 600;
  allowed_devices = "mobile" ∷ [];
  demographics = end;
  preferred_sources = [];
  max_duration_minutes = some (natural 60);
  notifications_enabled = true;
  profile_version = "v1";
}

abbrev pub settings : Settings cents
settings = record {
  construct = construct;
  strict = false;
  min_score = 40;
  profile = user;
  cycle_id = "c1";
  failed_at = 0;
}

abbrev pub yes_to_all : Answers
yes_to_all = record { gate = ok accepted; dispatch = ok delivered }
