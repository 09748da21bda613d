-- ===== src/Normalization.antt =====
-- normalization/: schema.py in `Schema`, and engine.py with the results of models.py here. Time
-- stamps and schema versions of results are left out; log lines too.
pub mod Schema
pub mod Surveys
pub mod Typed
pub mod Defaults
use lidenal85_blip.Base.{
  if◌then◌else◌, string_eq, String, Bool, not, Option, none, some, List, [], ◌∷◌, ◌++◌,
}
use lidenal85_blip.Base.Dict.{Dict, lookup, insert}
use lidenal85_blip.Contracts.Value.{Value, natural, int, float, str}
use lidenal85_blip.Contracts.Floats.{Floats, is_positive, Outcome, ok, raise, other_error, ◌>>=◌}
use lidenal85_blip.Contracts.Survey.{model_dump, Survey, DlqItem}
use lidenal85_blip.Contracts.Pydantic.{Pydantic}
use Schema.{Verdict, is_missing, rename_all, validate}

pub data NormalizationStatus : Type 0 where
  valid invalid partial : NormalizationStatus

pub record NormalizationResult (F : Type 0) : Type 0 where
  pub status : NormalizationStatus
  pub validated_survey : Option (Dict String (Value F))
  pub validation_errors : List String
  pub warnings : List String

pub record RawPayload (F : Type 0) : Type 0 where
  pub payload_id : String
  pub source : String
  pub raw_content : Dict String (Value F)

-- the table of the engine's `_normalize_fields`
abbrev pub engine_mappings : List (String × String)
engine_mappings =
    ("survey_id", "id")
    ∷ ("study_id", "id")
    ∷ ("name", "title")
    ∷ ("compensation", "payout")
    ∷ ("reward", "payout")
    ∷ ("duration", "duration_minutes")
    ∷ ("time", "duration_minutes")
    ∷ ("platform", "source")
    ∷ []

module _ {F : Type 0} where
  unfoldable pub rename_fields : Dict String (Value F) → Dict String (Value F)
  unfolding rename_all
  rename_fields d = rename_all engine_mappings d

  -- one round of the loop of `_apply_defaults`
  unfoldable pub apply_default : String → Value F → Dict String (Value F) → Dict String (Value F)
  apply_default k default d = if is_missing (lookup k d) then insert k default d else d

module _ (N : Floats) (construct : Pydantic N) where
  open N use {Float, of_integer, decimal, le}

  unfoldable pub apply_defaults : Dict String (Value Float) → Dict String (Value Float)
  unfolding apply_default
  apply_defaults d =
      let d = apply_default "id" (str "") d in
      let d = apply_default "title" (str "Untitled Survey") d in
      let d = apply_default "payout" (float (decimal 0 1)) d in
      let d = apply_default "duration_minutes" (int (natural 0)) d in
      let d = apply_default "source" (str "unknown") d in
      apply_default "schema_version" (str "v1") d

  unfoldable pub warnings_of : Survey Float → List String
  warnings_of s =
      (if le s.payout (of_integer (natural 0)) then "Payout is zero or negative" ∷ [] else [])
      ++ (if not (is_positive s.duration_minutes) then "Duration is zero or negative" ∷ [] else [])

  abbrev pub status_of : Bool → List String → NormalizationStatus
  status_of strict [] = valid
  status_of strict (_ ∷ _) = if strict then partial else valid

  abbrev pub rejected_result : List String → NormalizationResult Float
  rejected_result errors = record {
    status = invalid;
    validated_survey = none;
    validation_errors = errors;
    warnings = [];
  }

  abbrev pub conclude_survey : Bool → Option (Survey Float) → NormalizationResult Float
  conclude_survey strict none = rejected_result ("Survey creation failed" ∷ [])
  conclude_survey strict (some s) = record {
    status = status_of strict (warnings_of s);
    validated_survey = some (model_dump s);
    validation_errors = [];
    warnings = warnings_of s;
  }

  abbrev pub conclude : Bool → Verdict Float → NormalizationResult Float
  conclude strict v =
      if not v.is_valid then rejected_result v.errors else conclude_survey strict v.survey

  unfoldable pub normalize : Bool → RawPayload Float → Outcome (NormalizationResult Float)
  unfolding warnings_of
  normalize strict raw = do
    verdict ← validate N construct strict (apply_defaults (rename_fields raw.raw_content))
    ok (conclude strict verdict)

  -- `create_dlq_item`: the arguments are evaluated up to `datetime.utcnow()`, which raises a
  -- NameError, since the module does not import `datetime`
  unfoldable pub create_dlq_item : RawPayload Float → String → String → Outcome (DlqItem Float)
  create_dlq_item raw cycle_id reason =
      raise (record { class_of = other_error; text = "name 'datetime' is not defined" })
