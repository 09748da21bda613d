-- ===== src/Normalization/Schema.antt =====
-- normalization/schema.py: the validator of the normalization engine.
use lidenal85_blip.Base.{
  if◌then◌else◌, string_eq, String, ◌<>◌, Bool, true, false, not, ◌&&◌, Option, none, some, List,
  [], ◌∷◌, ◌++◌,
}
use lidenal85_blip.Base.Dict.{Dict, lookup, has, insert}
use lidenal85_blip.Contracts.Value.{Value, natural, null, int, float, str}
use lidenal85_blip.Contracts.Floats.{
  Floats, ExceptionClass, Outcome, value_error, type_error, validation_error, ok, raise, ◌>>=◌,
}
use lidenal85_blip.Contracts.Survey.{Survey}
use lidenal85_blip.Contracts.Pydantic.{Pydantic, to_float, to_int}

abbrev pub required : List String
required = "id" ∷ "title" ∷ "payout" ∷ "duration_minutes" ∷ "source" ∷ []

-- the table of `SchemaValidator.normalize_fields`
abbrev pub field_mappings : List (String × String)
field_mappings =
    ("survey_id", "id")
    ∷ ("study_id", "id")
    ∷ ("title", "title")
    ∷ ("name", "title")
    ∷ ("compensation", "payout")
    ∷ ("reward", "payout")
    ∷ ("duration", "duration_minutes")
    ∷ ("time", "duration_minutes")
    ∷ ("source", "source")
    ∷ ("platform", "source")
    ∷ []

module _ {F : Type 0} where
  -- None, or no value at all
  abbrev pub is_missing : Option (Value F) → Bool
  is_missing none = true
  is_missing (some null) = true
  is_missing (some _) = false

  -- the errors of the loop over the required fields
  unfoldable pub missing_errors : List String → Dict String (Value F) → List String
  missing_errors [] d = []
  missing_errors (f ∷ fs) d =
      let rest = missing_errors fs d in
      if is_missing (lookup f d) then ("Missing required field: " <> f) ∷ rest else rest

  abbrev or_default : Value F → Option (Value F) → Value F
  or_default default none = default
  or_default default (some v) = v

  -- `data.get(k, default)`
  abbrev pub get_or : String → Value F → Dict String (Value F) → Value F
  get_or k default d = or_default default (lookup k d)

  -- `normalized[new_key] = normalized[old_key]`, if the old key is there and the new one is not
  abbrev rename_to :
      Option (Value F) → Bool → String → Dict String (Value F) → Dict String (Value F)
  rename_to none taken k d = d
  rename_to (some v) taken k d = if taken then d else insert k v d

  unfoldable pub rename : String → String → Dict String (Value F) → Dict String (Value F)
  rename old new d = rename_to (lookup old d) (has new d) new d

  -- the loop over a table of names, of `normalize_fields` and of the engine's `_normalize_fields`
  unfoldable pub rename_all : List (String × String) → Dict String (Value F) → Dict String (Value F)
  rename_all [] d = d
  rename_all ((old, new) ∷ table) d = rename_all table (rename old new d)

  unfoldable pub normalize_fields : Dict String (Value F) → Dict String (Value F)
  unfolding rename_all
  normalize_fields d = rename_all field_mappings d

-- What `validate` returns: is_valid, errors, survey.
pub record Verdict (F : Type 0) : Type 0 where
  pub is_valid : Bool
  pub errors : List String
  pub survey : Option (Survey F)

-- the classes of `except (ValueError, TypeError, ValidationError)`
abbrev pub is_caught : ExceptionClass → Bool
is_caught value_error = true
is_caught type_error = true
is_caught validation_error = true
is_caught _ = false

module _ (N : Floats) (construct : Pydantic N) where
  open N use {Float, of_integer}

  -- the model that the `try` block builds from the data
  unfoldable pub build : Dict String (Value Float) → Outcome (Survey Float)
  build d = do
    payout ← to_float N (get_or "payout" (int (natural 0)) d)
    duration ← to_int N (get_or "duration_minutes" (int (natural 0)) d)
    construct (
        ("id", get_or "id" (str "") d)
        ∷ ("title", get_or "title" (str "") d)
        ∷ ("payout", float payout)
        ∷ ("duration_minutes", int duration)
        ∷ ("source", get_or "source" (str "unknown") d)
        ∷ ("schema_version", str "v1")
        ∷ [])

  -- the handler of the `try` block, with the errors found before
  abbrev handle : List String → Outcome (Survey Float) → Outcome (Verdict Float)
  handle errors (ok s) = ok (record { is_valid = true; errors = []; survey = some s })
  handle errors (raise e) =
      if is_caught e.class_of
      then ok (record { is_valid = false; errors = errors ++ e.text ∷ []; survey = none })
      else raise e

  abbrev is_empty : List String → Bool
  is_empty [] = true
  is_empty (_ ∷ _) = false

  unfoldable pub validate : Bool → Dict String (Value Float) → Outcome (Verdict Float)
  validate strict d =
      let errors = missing_errors required d in
      if not (is_empty errors) && strict
      then ok (record { is_valid = false; errors = errors; survey = none })
      else handle errors (build d)
