-- ===== src/Tests/Profile.antt =====
-- The orchestrators of the bootstrap at a survey that pays nothing.
use lidenal85_blip.Base.{string_eq, ℕ, ◌≡◌, refl, ◌≢◌, true, false, some, [], ◌∷◌}
use lidenal85_blip.Contracts.Floats.{ok}
use lidenal85_blip.Contracts.Survey.{basic_survey, model_dump, Survey}
use lidenal85_blip.Contracts.Value.{natural, str}
use lidenal85_blip.Filter.Engine.{evaluate, eligible}
use lidenal85_blip.Normalization.Surveys.{stripped}
use lidenal85_blip.Base.Dict.{lookup, has, insert}
use lidenal85_blip.Contracts.Pydantic.{to_float, to_int}
use lidenal85_blip.Normalization.Schema.{missing_errors, rename, build, validate}
use lidenal85_blip.Normalization.{
  conclude_survey, normalize, RawPayload, invalid, rename_fields, apply_defaults,
}
use lidenal85_blip.Normalization.Typed.{survey_fields, conforms, normalize-conforms}
use lidenal85_blip.Pipeline.Orchestrator.{
  no_counts, idempotency_key, process_one, Settings, accepted, delivered, check_key, send,
}
use lidenal85_blip.Bootstrap.Profile.{bootstrap_settings, bootstrap_rejects_none}
use lidenal85_blip.Tests.Data.{cents, construct, construct-IsLawful, chat, yes_to_all}

abbrev unpaid : Survey ℕ
unpaid = record chat { payout = 0; country = some "JP" }

abbrev made_here : Settings cents
made_here = bootstrap_settings cents construct "c1" 7

bootstrap_rejects_none_example :
    ((process_one cents made_here unpaid yes_to_all).0.rejected_count ≡ 0)
    × ((evaluate cents made_here.min_score (stripped unpaid) made_here.profile "c1").status
        ≡ eligible)
    × (process_one cents made_here unpaid (record { gate = ok accepted; dispatch = ok delivered })
        ≡ (
          record no_counts { delivered_count = 1 },
          check_key (idempotency_key cents made_here (stripped unpaid))
              ∷ send
                  (stripped unpaid)
                  (evaluate cents made_here.min_score
                    (stripped unpaid)
                    made_here.profile
                    "c1").score
                  (evaluate cents made_here.min_score
                    (stripped unpaid)
                    made_here.profile
                    "c1").reasons
              ∷ [],
        ))
bootstrap_rejects_none_example =
    bootstrap_rejects_none cents construct construct-IsLawful "c1" 7 refl refl unpaid yes_to_all

-- a raw payload with one field, under another name
abbrev raw : RawPayload ℕ
raw = record {
  payload_id = "raw_1";
  source = "prolific";
  raw_content = ("survey_id", str "s1") ∷ [];
}

abbrev typed_survey : Survey ℕ
typed_survey = basic_survey "s1" "Untitled Survey" 0 (natural 0) "unknown"

normalized_raw :
    normalize cents construct false raw
    ≡ ok (conclude_survey cents construct false (some typed_survey))
unfolding normalize validate missing_errors lookup apply_defaults rename_fields rename string_eq has
    insert build to_float to_int basic_survey
normalized_raw = refl

normalize-conforms_example :
    ((conclude_survey cents construct false (some typed_survey)).status ≢ invalid)
    × (conforms survey_fields (model_dump typed_survey) ≡ true)
normalize-conforms_example =
    normalize-conforms cents construct false raw
      (conclude_survey cents construct false (some typed_survey)) (model_dump typed_survey)
      normalized_raw refl
