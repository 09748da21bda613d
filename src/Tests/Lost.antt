-- ===== src/Tests/Lost.antt =====
-- A survey that the chat service does not take, and the cycle of the next hour.
use lidenal85_blip.Base.{
  if◌then◌else◌, string_eq, ◌+◌, ◌<◌, String, ◌≡◌, refl, ◌≢◌, some, [], ◌∷◌, arith,
}
use lidenal85_blip.Pipeline.Orchestrator.{
  idempotency_key, to_dlq, filter_and_send, rebuilt, rebind, normalized, raw_payload,
}
use lidenal85_blip.Pipeline.Orchestrator.Apart.{apply_effect, apply_effects}
use lidenal85_blip.Normalization.{
  rename_fields, apply_default, apply_defaults, warnings_of, normalize,
}
use lidenal85_blip.Normalization.Schema.{missing_errors, rename, rename_all, build, validate}
use lidenal85_blip.Base.Dict.{lookup, has, insert}
use lidenal85_blip.Contracts.Survey.{option_value, model_dump}
use lidenal85_blip.Contracts.Value.{of_strings}
use lidenal85_blip.Contracts.Pydantic.{to_float, to_int}
use lidenal85_blip.Filter.Engine.{
  start, check_rules, check_source, max_zero, check_duration, decide, tally,
}
use lidenal85_blip.Filter.{any_in}
use lidenal85_blip.Gate.{lock_key, check_and_set}
use lidenal85_blip.Contracts.Floats.{Raised, ok, raise}
use lidenal85_blip.Filter.{check_country, check_hourly_rate, check_device, check_screening}
use lidenal85_blip.Filter.Engine.{is_unwanted, is_too_long, evaluate, rejected, eligible}
use lidenal85_blip.Contracts.Survey.{basic_survey}
use lidenal85_blip.Dlq.{store}
use lidenal85_blip.Pipeline.Orchestrator.{
  no_counts, process_one, Effect, Settings, delivered, failed, check_key, is_rejected,
}
use lidenal85_blip.Pipeline.Orchestrator.Effects.{verdict, key, letter, message, failure_of}
use lidenal85_blip.Pipeline.Orchestrator.Apart.{ask, World, process_at, waits, here, next}
use lidenal85_blip.Pipeline.Orchestrator.Lost.{undelivered_is_lost}
use lidenal85_blip.Tests.Store.{memory, memory-IsLawful, nothing}
use lidenal85_blip.Tests.Data.{cents, construct-IsLawful, chat, settings}
use lidenal85_blip.Tests.Queue.{plain_text, plain_text-IsLawful, store_of_lists, empty}

chat_eligible : (verdict cents settings chat).status ≡ eligible
unfolding evaluate check_country check_hourly_rate check_device check_screening is_unwanted
    is_too_long basic_survey string_eq
chat_eligible = refl

chat_kept : (verdict cents settings chat).status ≢ rejected
chat_kept h = cc chat_eligible

not_sent : ok (failed "HTTP 502") ≢ ok delivered
not_sent h = cc

-- the settings of the next cycle
abbrev next_settings : Settings cents
next_settings = record settings { cycle_id = "c2" }

abbrev after_failure : World cents memory 86400
after_failure =
    process_at cents memory 86400 settings "t0" chat (ok (failed "HTTP 502"))
      (record { db = nothing; now = 0; dispatched = [] })

abbrev an_hour_later : World cents memory 86400
an_hour_later = record after_failure {
  db = memory.elapse 3600 after_failure.db;
  now = after_failure.now + 3600;
}

an_hour_later_now : an_hour_later.now ≡ 3600
unfolding process_at string_eq apply_effect apply_effects normalize apply_defaults apply_default
    rename_fields warnings_of validate missing_errors rename rename_all build lookup insert has
    model_dump option_value of_strings to_float to_int check_duration check_rules check_source
    decide evaluate is_too_long is_unwanted max_zero start tally check_country check_device
    check_hourly_rate check_screening any_in check_and_set lock_key process_one normalized rebind
    rebuilt filter_and_send idempotency_key raw_payload to_dlq
an_hour_later_now = refl

not_yet_a_day : an_hour_later.now < 0 + 86400
not_yet_a_day = omega (arith, an_hour_later_now)

undelivered_is_lost_example :
    (reason : String) × (e : Raised) × (failure_of (ok (failed "HTTP 502")) ≡ some reason)
    × (process_one cents settings chat (record {
      gate = ok (ask cents memory 86400 (key cents settings chat) "t0" nothing).1.status;
      dispatch = ok (failed "HTTP 502");
    })
        ≡ (
          record no_counts { error_count = 1 },
          check_key (key cents settings chat)
              ∷ message cents settings chat
              ∷ Effect.store (letter cents settings chat reason)
              ∷ [],
        ))
    × (store plain_text store_of_lists 60 "t0" (letter cents settings chat reason) empty
        ≡ (empty, raise e))
    × (process_one cents next_settings chat (record {
      gate =
          ok (ask cents memory 86400 (key cents next_settings chat) "t1" an_hour_later.db).1.status;
      dispatch = ok delivered;
    })
        ≡ (if is_rejected (verdict cents next_settings chat).status
            then (record no_counts { rejected_count = 1 }, [])
            else (
              record no_counts { duplicate_count = 1 },
              check_key (key cents next_settings chat) ∷ [],
            )))
undelivered_is_lost_example =
    undelivered_is_lost cents memory 86400 memory-IsLawful (omega arith) settings "t0" chat
      (ok (failed "HTTP 502")) nothing 0 plain_text store_of_lists 60 empty an_hour_later
      next_settings "t1" (ok delivered) construct-IsLawful construct-IsLawful plain_text-IsLawful
      chat_kept not_sent refl (next here (waits after_failure 3600)) not_yet_a_day
