-- ===== src/Normalization/Surveys.antt =====
-- What the engine makes of a survey's own dump, the raw content that the pipeline hands it.
use lidenal85_blip.Base.{string_eq, String, ◌≡◌, refl, Bool, true, some, []}
use lidenal85_blip.Base.Dict.{lookup, has}
use lidenal85_blip.Contracts.Floats.{Floats, ok}
use lidenal85_blip.Contracts.Survey.{basic_survey, model_dump, Survey}
use lidenal85_blip.Contracts.Pydantic.{Pydantic, to_float, to_int, IsLawful}
use lidenal85_blip.Normalization.Schema.{build, validate, required, missing_errors, rename, Verdict}
use lidenal85_blip.Normalization.{rename_fields, apply_defaults, normalize, conclude_survey}

-- The survey with every field at its default but the five that the validator copies.
abbrev pub stripped : {F : Type 0} → Survey F → Survey F
stripped s = basic_survey s.id s.title s.payout s.duration_minutes s.source

module _ (N : Floats) (construct : Pydantic N) (lawful : IsLawful N construct) where
  open N use {Float}

  rename_fields-model_dump : (s : Survey Float) → rename_fields (model_dump s) ≡ model_dump s
  unfolding rename_fields rename model_dump string_eq lookup has
  rename_fields-model_dump s = refl

  apply_defaults-model_dump :
      (s : Survey Float) → apply_defaults N construct (model_dump s) ≡ model_dump s
  unfolding apply_defaults model_dump string_eq lookup
  apply_defaults-model_dump s = refl

  build-model_dump : (s : Survey Float) → build N construct (model_dump s) ≡ ok (stripped s)
  unfolding build model_dump string_eq lookup to_float to_int
  build-model_dump s = lawful.construct-basic s.id s.title s.source s.payout s.duration_minutes

  missing_errors-model_dump : (s : Survey Float) → missing_errors required (model_dump s) ≡ []
  unfolding missing_errors model_dump string_eq lookup
  missing_errors-model_dump s = refl

  accepted : Survey Float → Verdict Float
  accepted s = record { is_valid = true; errors = []; survey = some s }

  validate-model_dump :
      (strict : Bool) (s : Survey Float)
      → validate N construct strict (model_dump s) ≡ ok (accepted (stripped s))
  unfolding validate accepted
  validate-model_dump strict s = rw (missing_errors-model_dump s, build-model_dump s)

  -- With a validation that is lawful, the engine accepts every survey's dump, and the survey that
  -- it hands back has lost all but the identifier, the title, the payout, the duration and the
  -- source.
  pub normalize-model_dump :
      (strict : Bool) (payload_id source : String) (s : Survey Float)
      → normalize N construct strict
          (record { payload_id = payload_id; source = source; raw_content = model_dump s })
        ≡ ok (conclude_survey N construct strict (some (stripped s)))
  unfolding normalize accepted
  normalize-model_dump strict payload_id source s =
      rw (rename_fields-model_dump s, apply_defaults-model_dump s, validate-model_dump strict s)
