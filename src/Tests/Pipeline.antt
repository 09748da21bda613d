-- ===== src/Tests/Pipeline.antt =====
-- The pipeline's theorems at a survey for one country and one device.
use lidenal85_blip.Base.{◌++◌}
use lidenal85_blip.Base.{string_eq, ℕ, ◌+◌, ◌≡◌, refl, true, none, some, List, [], ◌∷◌}
use lidenal85_blip.Contracts.Floats.{Raised, Outcome, runtime_error, ok, raise}
use lidenal85_blip.Contracts.Survey.{Survey, model_dump}
use lidenal85_blip.Filter.{check_country, check_hourly_rate, check_device, check_screening}
use lidenal85_blip.Filter.Engine.{is_unwanted, is_too_long, evaluate}
use lidenal85_blip.Filter.{source_not_preferred, duration_too_long}
use lidenal85_blip.Filter.Engine.Decision.{evaluate-reasons, line_of, fail_if}
use lidenal85_blip.Normalization.{normalize, conclude_survey}
use lidenal85_blip.Normalization.Surveys.{stripped, normalize-model_dump}
use lidenal85_blip.Pipeline.Orchestrator.{
  process_one, run, summary_of, Answers, Settings, is_rejected,
}
use lidenal85_blip.Pipeline.Orchestrator.Effects.{table, verdict, failure_of, process_one-table}
use lidenal85_blip.Pipeline.Orchestrator.Totals.{run-total}
use lidenal85_blip.Pipeline.Orchestrator.Restrictions.{restrictions_ignored}
use lidenal85_blip.Bootstrap.{run_poll_cycle, Totals, LastCycle, idle, completed}
use lidenal85_blip.Bootstrap.Sums.{returns, run_poll_cycle_handles}
use lidenal85_blip.Tests.Data.{
  cents, construct, construct-IsLawful, chat, open_chat, user, settings, yes_to_all,
}

restrictions_ignored_example :
    process_one cents settings chat yes_to_all ≡ process_one cents settings open_chat yes_to_all
restrictions_ignored_example =
    restrictions_ignored cents settings construct-IsLawful chat open_chat yes_to_all refl

process_one-table_example :
    process_one cents settings chat yes_to_all
    ≡ table cents settings chat
        (is_rejected (verdict cents settings chat).status)
        yes_to_all.gate
        (failure_of yes_to_all.dispatch)
process_one-table_example = process_one-table cents settings chat construct-IsLawful yes_to_all

abbrev tasks : List (Survey ℕ × Answers)
tasks = (chat, yes_to_all) ∷ (open_chat, yes_to_all) ∷ []

abbrev refused : Raised
refused = record { class_of = runtime_error; text = "refused" }

run-total_example :
    ((summary_of (run cents settings (ok tasks))).fetched ≡ 2)
    × ((summary_of (run cents settings (ok tasks))).delivered_total
          + (summary_of (run cents settings (ok tasks))).rejected_total
          + (summary_of (run cents settings (ok tasks))).duplicates
          + (summary_of (run cents settings (ok tasks))).errors
        ≡ (summary_of (run cents settings (ok tasks))).fetched)
    × ((summary_of (run cents settings (raise refused))).fetched ≡ 0)
    × ((summary_of (run cents settings (raise refused))).errors ≡ 1)
run-total_example = run-total cents settings tasks refused

abbrev sources : List (Settings cents × Outcome (List (Survey ℕ × Answers)))
sources = (settings, ok tasks) ∷ (settings, raise refused) ∷ []

abbrev never_run : LastCycle
never_run = record {
  cycle_id = none;
  status = idle;
  started_at = none;
  finished_at = none;
  summary = none;
}

run_poll_cycle_handles_example :
    (t : Totals) × ((run_poll_cycle "c1" 0 9 (returns cents sources) never_run).status ≡ completed)
    × ((run_poll_cycle "c1" 0 9 (returns cents sources) never_run).summary ≡ some t)
    × (t.delivered + t.rejected + t.duplicates + t.errors ≡ t.fetched + 1)
run_poll_cycle_handles_example = run_poll_cycle_handles cents "c1" 0 9 sources never_run

evaluate-reasons_example :
    (evaluate cents 40 chat user "c1").reasons
    ≡ line_of (check_hourly_rate cents chat user)
        ∷ line_of (check_country cents chat user)
        ∷ line_of (check_device cents chat user)
        ∷ line_of (check_screening cents chat user)
        ∷ fail_if (is_unwanted cents chat user) (source_not_preferred chat.source)
      ++ fail_if (is_too_long cents chat user) (duration_too_long chat.duration_minutes)
evaluate-reasons_example = evaluate-reasons cents 40 chat user "c1"

normalize-model_dump_example :
    normalize cents construct true
      (record { payload_id = "raw_s1"; source = "prolific"; raw_content = model_dump chat })
    ≡ ok (conclude_survey cents construct true (some (stripped chat)))
normalize-model_dump_example =
    normalize-model_dump cents construct construct-IsLawful true "raw_s1" "prolific" chat
