-- ===== src/Tests/Apart.antt =====
-- One survey in three cycles: sent, still blocked an hour later, and sent again after a day.
use lidenal85_blip.Base.{string_eq, ℕ, ◌+◌, String, ◌≡◌, refl, [], ◌∷◌, arith}
use lidenal85_blip.Pipeline.Orchestrator.{
  process_one, normalized, rebind, rebuilt, filter_and_send, raw_payload, to_dlq, delivered,
  idempotency_key,
}
use lidenal85_blip.Contracts.Floats.{ok}
use lidenal85_blip.Pipeline.Orchestrator.Apart.{
  apply_effect, apply_effects, process_at, World, Reach, processes, waits, here, next,
}
use lidenal85_blip.Pipeline.Orchestrator.Apart.Invariant.{dispatches_apart, AreDispatchesApart}
use lidenal85_blip.Tests.Store.{memory, memory-IsLawful, nothing}
use lidenal85_blip.Tests.Data.{cents, construct-IsLawful, chat, settings}
use lidenal85_blip.Normalization.{
  normalize, apply_defaults, apply_default, rename_fields, warnings_of,
}
use lidenal85_blip.Normalization.Schema.{validate, missing_errors, rename, rename_all, build}
use lidenal85_blip.Base.Dict.{lookup, insert, has}
use lidenal85_blip.Contracts.Survey.{model_dump, option_value}
use lidenal85_blip.Contracts.Value.{of_strings}
use lidenal85_blip.Contracts.Pydantic.{to_float, to_int}
use lidenal85_blip.Filter.Engine.{
  check_duration, check_rules, check_source, decide, evaluate, is_too_long, is_unwanted, max_zero,
  start, tally,
}
use lidenal85_blip.Filter.{check_country, check_device, check_hourly_rate, check_screening, any_in}
use lidenal85_blip.Gate.{check_and_set, lock_key}

abbrev Server : Type 0
Server = World cents memory 86400

abbrev at_first : Server
at_first = record { db = nothing; now = 0; dispatched = [] }

abbrev cycle : String → Server → Server
cycle stamp w = process_at cents memory 86400 settings stamp chat (ok delivered) w

abbrev wait : ℕ → Server → Server
wait n w = record w { db = memory.elapse n w.db; now = w.now + n }

abbrev in_the_end : Server
in_the_end = cycle "t2" (wait 90000 (cycle "t1" (wait 3600 (cycle "t0" at_first))))

three_cycles : Reach cents memory 86400 at_first in_the_end
three_cycles =
    next
      (next
        (next
          (next (next here (processes _ settings "t0" chat (ok delivered) construct-IsLawful))
            (waits _ 3600))
          (processes _ settings "t1" chat (ok delivered) construct-IsLawful))
        (waits _ 90000))
      (processes _ settings "t2" chat (ok delivered) construct-IsLawful)

dispatches_apart_example : AreDispatchesApart 86400 in_the_end.dispatched
dispatches_apart_example =
    dispatches_apart cents memory 86400 memory-IsLawful (omega arith) nothing 0 in_the_end
      three_cycles

in_the_end_dispatched :
    in_the_end.dispatched
    ≡ record { source = "prolific"; id = "s1"; called_at = 93600 }
      ∷ record { source = "prolific"; id = "s1"; called_at = 0 }
      ∷ []
unfolding process_at string_eq apply_effect apply_effects normalize apply_defaults apply_default
    rename_fields warnings_of validate missing_errors rename rename_all build lookup insert has
    model_dump option_value of_strings to_float to_int check_duration check_rules check_source
    decide evaluate is_too_long is_unwanted max_zero start tally check_country check_device
    check_hourly_rate check_screening any_in check_and_set lock_key process_one normalized rebind
    rebuilt filter_and_send idempotency_key raw_payload to_dlq
in_the_end_dispatched = refl
