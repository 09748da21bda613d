-- ===== src/Pipeline/Orchestrator/Totals.antt =====
-- pipeline/orchestrator.py: the headings under which surveys are counted.
use lidenal85_blip.Base.{length, ℕ, ◌+◌, ◌≡◌, List, [], ◌∷◌, arith}
use lidenal85_blip.Contracts.Floats.{Raised, Floats, ok, raise}
use lidenal85_blip.Contracts.Survey.{Survey}
use lidenal85_blip.Pipeline.Orchestrator.{
  to_dlq, filter_and_send, normalized, process_one, summary_of, add_result, add_results,
  empty_summary, gather, run, Answers, Counts, Settings, Summary, counts, rebind, rebuilt,
}

abbrev pub total : Counts → ℕ
total c = c.delivered_count + c.rejected_count + c.duplicate_count + c.error_count

module _ (N : Floats) (settings : Settings N) where
  open N use {Float}

  filter_and_send-total :
      (s : Survey Float) (answers : Answers) → total (filter_and_send N settings s answers).0 ≡ 1
  unfolding filter_and_send
  filter_and_send-total s answers = ground arith

  -- Whatever a task meets, exceptions included, it counts its survey under exactly one heading.
  pub process_one-total :
      (s : Survey Float) (answers : Answers) → total (process_one N settings s answers).0 ≡ 1
  unfolding process_one normalized rebind rebuilt to_dlq
  process_one-total s answers = grind (arith, filter_and_send-total)

  gather-total :
      (tasks : List (Survey Float × Answers)) (t : Summary)
      → let t' = add_results (gather N settings tasks) t in
        (t'.delivered_total + t'.rejected_total + t'.duplicates + t'.errors
          ≡ t.delivered_total + t.rejected_total + t.duplicates + t.errors + length tasks)
        × (t'.fetched ≡ t.fetched)
  unfolding gather add_results add_result
  gather-total [] t = ground arith
  gather-total ((s, a) ∷ tasks) t = ground (
    arith,
    process_one-total s a,
    gather-total tasks (add_result (counts (process_one N settings s a).0) t),
  )

  -- After a fetch that succeeds, the surveys delivered, rejected, found to be duplicates and in
  -- error are together the surveys fetched; after one that fails, the summary has one error and
  -- no survey.
  pub run-total :
      (tasks : List (Survey Float × Answers)) (e : Raised)
      → let t = summary_of (run N settings (ok tasks)) in
        let none_fetched = summary_of (run N settings (raise e)) in
        (t.fetched ≡ length tasks)
        × (t.delivered_total + t.rejected_total + t.duplicates + t.errors ≡ t.fetched)
        × (none_fetched.fetched ≡ 0)
        × (none_fetched.errors ≡ 1)
  unfolding run
  run-total [] e = ground arith
  run-total (task ∷ tasks) e = ground (
    arith,
    gather-total (task ∷ tasks)
        (record (empty_summary N settings) { fetched = length (task ∷ tasks) }),
  )
