-- ===== src/Normalization/Typed.antt =====
-- The types of the fields that the normalization hands on.
use mathlib.Core.Path.{subst}
use lidenal85_blip.Base.{
  Bool-cases, ◌==◌, string_eq, String, ◌≡◌, refl, sym, ap, ◌∙◌, ◌≢◌, inl, inr, Bool, true, false,
  ◌&&◌, Option, none, some, List, [], ◌∷◌, arith,
}
use lidenal85_blip.Base.Dict.{Dict}
use lidenal85_blip.Contracts.Value.{
  of_strings, Integer, Value, Items, null, int, float, str, list, dict, nil, cons,
}
use lidenal85_blip.Contracts.Floats.{Floats, ok, ◌>>=◌, Outcome, raise}
use lidenal85_blip.Contracts.Pydantic.{Pydantic}
use lidenal85_blip.Normalization.Schema.{Verdict}
use lidenal85_blip.Normalization.{
  conclude, normalize, NormalizationResult, RawPayload, invalid, warnings_of, status_of,
  conclude_survey,
}
use lidenal85_blip.Contracts.Survey.{option_value, model_dump, Survey}

-- The types that the fields of `Survey` are declared with.
pub data FieldType : Type 0 where
  text whole decimal texts mapping : FieldType
  optional_whole optional_text : FieldType

unfoldable pub survey_fields : List (String × FieldType)
survey_fields =
    ("id", text)
    ∷ ("title", text)
    ∷ ("payout", decimal)
    ∷ ("duration_minutes", whole)
    ∷ ("source", text)
    ∷ ("url", text)
    ∷ ("description", text)
    ∷ ("places_available", optional_whole)
    ∷ ("deadline", optional_text)
    ∷ ("device_requirements", texts)
    ∷ ("eligibility_criteria", mapping)
    ∷ ("country", optional_text)
    ∷ ("schema_version", text)
    ∷ []

module _ {F : Type 0} where
  all_texts : Items F → Bool
  all_texts nil = true
  all_texts (cons (str s) vs) = all_texts vs
  all_texts (cons v vs) = false

  -- Whether the value is of the type.
  unfoldable pub has_type : FieldType → Value F → Bool
  unfolding all_texts
  has_type text (str s) = true
  has_type whole (int n) = true
  has_type decimal (float x) = true
  has_type texts (list vs) = all_texts vs
  has_type mapping (dict fs) = true
  has_type optional_whole null = true
  has_type optional_whole (int n) = true
  has_type optional_text null = true
  has_type optional_text (str s) = true
  has_type _ _ = false

  -- Whether the dict has the fields of the table, in its order, and no others, each with a value
  -- of its type.
  unfoldable pub conforms : List (String × FieldType) → Dict String (Value F) → Bool
  unfolding has_type string_eq
  conforms [] [] = true
  conforms [] (entry ∷ d) = false
  conforms (row ∷ fields) [] = false
  conforms ((name, type) ∷ fields) ((k, v) ∷ d) =
      let rest = conforms fields d in name == k && has_type type v && rest

all_texts-of_strings :
    (F : Type 0) (ss : List String) → all_texts {F = F} (of_strings {F = F} ss) ≡ true
unfolding all_texts of_strings
all_texts-of_strings F [] = refl
all_texts-of_strings F (s ∷ ss) = all_texts-of_strings F ss

optional_whole-option_value :
    (F : Type 0) (o : Option Integer) → has_type optional_whole (option_value {F = F} int o) ≡ true
unfolding has_type option_value
optional_whole-option_value F none = refl
optional_whole-option_value F (some n) = refl

optional_text-option_value :
    (F : Type 0) (o : Option String) → has_type optional_text (option_value {F = F} str o) ≡ true
unfolding has_type option_value
optional_text-option_value F none = refl
optional_text-option_value F (some s) = refl

model_dump-conforms : (F : Type 0) (s : Survey F) → conforms survey_fields (model_dump s) ≡ true
unfolding survey_fields model_dump conforms string_eq
model_dump-conforms F s =
    rw
      (
        optional_whole-option_value F s.places_available,
        optional_text-option_value F s.deadline,
        optional_text-option_value F s.country,
        all_texts-of_strings F s.device_requirements,
      )
      refl

module _ (N : Floats) (construct : Pydantic N) where
  open N use {Float}

  status_of-not_invalid :
      (strict : Bool) (ws : List String) → status_of N construct strict ws ≢ invalid
  status_of-not_invalid strict [] h = ground arith
  status_of-not_invalid true (w ∷ ws) h = ground arith
  status_of-not_invalid false (w ∷ ws) h = ground arith

  -- What holds of a result that hands on a survey.
  abbrev IsTyped : NormalizationResult Float → Dict String (Value Float) → Type 0
  IsTyped r d = (r.status ≢ invalid) × (conforms survey_fields d ≡ true)

  conclude_survey-IsTyped :
      (strict : Bool) (o : Option (Survey Float)) (d : Dict String (Value Float))
      → (conclude_survey N construct strict o).validated_survey ≡ some d
      → IsTyped (conclude_survey N construct strict o) d
  conclude_survey-IsTyped strict none d h = absurd (ground arith)
  conclude_survey-IsTyped strict (some s) d h = (
    status_of-not_invalid strict (warnings_of N construct s),
    ground (arith, model_dump-conforms Float s),
  )

  conclude-IsTyped :
      (strict : Bool) (v : Verdict Float) (d : Dict String (Value Float))
      → (conclude N construct strict v).validated_survey ≡ some d
      → IsTyped (conclude N construct strict v) d
  conclude-IsTyped strict v d h = elim (Bool-cases v.is_valid) [
    | inl good ↦
        let same : conclude N construct strict v ≡ conclude_survey N construct strict v.survey =
          ground arith in
        subst (λ (q : NormalizationResult Float). IsTyped q d) (sym same)
          (conclude_survey-IsTyped strict v.survey d
            (sym (ap (λ (q : NormalizationResult Float). q.validated_survey) same) ∙ h))
    | inr bad ↦ absurd (ground arith)
  ]

  or_result :
      (strict : Bool) (o : Outcome (Verdict Float)) (r : NormalizationResult Float)
      (d : Dict String (Value Float))
      → (o >>= λ v. ok (conclude N construct strict v)) ≡ ok r
      → r.validated_survey ≡ some d
      → IsTyped r d
  or_result strict (raise x) r d e h = absurd (ground arith)
  or_result strict (ok v) r d e h =
      let same : conclude N construct strict v ≡ r = cc in
      subst (λ (q : NormalizationResult Float). IsTyped q d) same
        (conclude-IsTyped strict v d
          (ap (λ (q : NormalizationResult Float). q.validated_survey) same ∙ h))

  -- Whatever the raw payload holds, and whatever pydantic accepts: when the normalization hands
  -- on a survey, its result is not INVALID, and the survey is a dict of exactly the fields that
  -- the model declares, in their order, each with a value of the declared type.
  pub normalize-conforms :
      (strict : Bool) (raw : RawPayload Float) (r : NormalizationResult Float)
      (d : Dict String (Value Float))
      → normalize N construct strict raw ≡ ok r
      → r.validated_survey ≡ some d
      → (r.status ≢ invalid) × (conforms survey_fields d ≡ true)
  unfolding normalize
  normalize-conforms strict raw r d e h = or_result strict _ r d e h
