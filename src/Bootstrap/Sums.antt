-- ===== src/Bootstrap/Sums.antt =====
-- What the totals of a cycle say of the orchestrators' summaries.
use lidenal85_blip.Base.{ℕ, suc, ◌+◌, String, ◌≡◌, refl, some, List, [], ◌∷◌, arith}
use lidenal85_blip.Contracts.Floats.{Outcome, Floats, ok, raise, other_error}
use lidenal85_blip.Contracts.Survey.{Survey}
use lidenal85_blip.Pipeline.Orchestrator.Totals.{run-total}
use lidenal85_blip.Bootstrap.{
  no_totals, add_summary, add_return, add_returns, run_pipeline_once, poll_sources, run_poll_cycle,
  Totals, LastCycle, completed,
}
use lidenal85_blip.Pipeline.Orchestrator.{RunReturn, summary_of, Settings, Answers, run}

module _ (N : Floats) where
  open N use {Float}

  -- A source: how its orchestrator is set up, and what its fetch returns or raises, with the
  -- answers that the tasks get.
  abbrev pub Source : Type 0
  Source = Settings N × Outcome (List (Survey Float × Answers))

  abbrev pub returns : List Source → List (Outcome RunReturn)
  returns [] = []
  returns ((settings, fetched) ∷ sources) = ok (run N settings fetched) ∷ returns sources

  -- the sources whose fetch raises
  abbrev pub failed_fetches : List Source → ℕ
  failed_fetches [] = 0
  failed_fetches ((_, ok _) ∷ sources) = failed_fetches sources
  failed_fetches ((_, raise _) ∷ sources) = suc (failed_fetches sources)

  run_once_empty :
      (settings : Settings N) (fetched : Outcome (List (Survey Float × Answers))) (t : Totals)
      → let t' = add_return (ok (run N settings fetched)) t in
        (t'.delivered ≡ t.delivered) × (t'.fetched ≡ t.fetched)
  unfolding run add_return
  run_once_empty settings (raise e) t = ground arith
  run_once_empty settings (ok []) t = ground arith
  run_once_empty settings (ok (task ∷ tasks)) t = ground arith

  add_returns_empty :
      (sources : List Source) (t : Totals)
      → let t' = add_returns (returns sources) t in
        (t'.delivered ≡ t.delivered) × (t'.fetched ≡ t.fetched)
  unfolding add_returns
  add_returns_empty [] t = (refl, refl)
  add_returns_empty ((settings, fetched) ∷ sources) t = ground (
    arith,
    run_once_empty settings fetched t,
    add_returns_empty sources (add_return (ok (run N settings fetched)) t),
  )

  -- `run_pipeline_once` reports no survey as fetched and none as delivered, whatever its sources
  -- fetch and deliver.
  pub run_pipeline_once_empty :
      (sources : List Source)
      → ((run_pipeline_once (returns sources)).delivered ≡ 0)
        × ((run_pipeline_once (returns sources)).fetched ≡ 0)
  unfolding run_pipeline_once
  run_pipeline_once_empty sources = add_returns_empty sources no_totals

  abbrev handled : Totals → ℕ
  handled t = t.delivered + t.rejected + t.duplicates + t.errors

  summary-handled :
      (settings : Settings N) (fetched : Outcome (List (Survey Float × Answers))) (t : Totals)
      → let t' = add_summary (summary_of (run N settings fetched)) t in
        handled t' + t.fetched ≡ handled t + t'.fetched + failed_fetches ((settings, fetched) ∷ [])
  summary-handled settings (ok tasks) t =
      omega (arith, run-total N settings tasks (record { class_of = other_error; text = "" }))
  summary-handled settings (raise e) t = unfold run in ground arith

  poll_sources_ok :
      (sources : List Source) (t : Totals)
      → (t' : Totals) × (poll_sources (returns sources) t ≡ ok t')
        × (handled t' + t.fetched ≡ handled t + t'.fetched + failed_fetches sources)
  unfolding poll_sources
  poll_sources_ok [] t = (t, refl, omega arith)
  poll_sources_ok ((settings, fetched) ∷ sources) t =
      let next = add_summary (summary_of (run N settings fetched)) t in
      let (t', e, sums) = poll_sources_ok sources next in
      (t', e, failed_step settings fetched sources t t' sums)
    where
      failed_step :
          (settings : Settings N) (fetched : Outcome (List (Survey Float × Answers)))
          (sources : List Source) (t t' : Totals)
          → handled t' + (add_summary (summary_of (run N settings fetched)) t).fetched
            ≡ handled (add_summary (summary_of (run N settings fetched)) t)
              + t'.fetched
              + failed_fetches sources
          → handled t' + t.fetched
            ≡ handled t + t'.fetched + failed_fetches ((settings, fetched) ∷ sources)
      failed_step settings (ok tasks) sources t t' h =
          omega (arith, summary-handled settings (ok tasks) t)
      failed_step settings (raise e) sources t t' h =
          omega (arith, summary-handled settings (raise e) t)

  -- A poll cycle over the sources completes, and in its totals the surveys delivered, rejected,
  -- found to be duplicates and in error are the surveys fetched and one error for each fetch that
  -- failed.
  pub run_poll_cycle_handles :
      (cycle_id : String) (now later : ℕ) (sources : List Source) (c : LastCycle)
      → let c' = run_poll_cycle cycle_id now later (returns sources) c in
        (t : Totals) × (c'.status ≡ completed)
        × (c'.summary ≡ some t)
        × (handled t ≡ t.fetched + failed_fetches sources)
  unfolding run_poll_cycle
  run_poll_cycle_handles cycle_id now later sources c =
      let (t, e, sums) = poll_sources_ok sources no_totals in
      (t, ground arith, ground arith, omega arith)
