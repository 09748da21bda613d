-- ===== src/Bootstrap.antt =====
-- bootstrap/pipeline.py and the poll cycle of bootstrap/app.py: the two ways in which the
-- summaries of the sources' orchestrators are added up. `None` of a time stamp or an identifier
-- is `none`.
pub mod Sums
pub mod Outage
pub mod Lifespan
pub mod Profile
use lidenal85_blip.Base.{ℕ, ◌+◌, String, Option, none, some, List, [], ◌∷◌}
use lidenal85_blip.Contracts.Floats.{Outcome, ok, raise}
use lidenal85_blip.Pipeline.Orchestrator.{RunReturn, plain, wrapped, Summary, summary_of}

keep_built {ℓ} : {A : Type ℓ} → Outcome A → List A → List A
keep_built (ok orch) orchs = orch ∷ orchs
keep_built (raise e) orchs = orchs

-- `build_pipeline`: the orchestrators of the sources for which `_make_orchestrator` does not
-- raise. The parts of `settings.POLL_SOURCES`, stripped and without the empty ones, are the list
-- given.
unfoldable pub build_pipeline {ℓ} : {A : Type ℓ} → (String → Outcome A) → List String → List A
unfolding keep_built
build_pipeline make [] = []
build_pipeline make (source ∷ sources) = keep_built (make source) (build_pipeline make sources)

-- The dict of totals, of both functions.
pub record Totals : Type 0 where
  pub fetched : ℕ
  pub delivered : ℕ
  pub rejected : ℕ
  pub duplicates : ℕ
  pub errors : ℕ

abbrev pub no_totals : Totals
no_totals = record { fetched = 0; delivered = 0; rejected = 0; duplicates = 0; errors = 0 }

abbrev pub add_summary : Summary → Totals → Totals
add_summary s t = record {
  fetched = t.fetched + s.fetched;
  delivered = t.delivered + s.delivered_total;
  rejected = t.rejected + s.rejected_total;
  duplicates = t.duplicates + s.duplicates;
  errors = t.errors + s.errors;
}

-- one round of the loop of `run_pipeline_once`: `isinstance(r, dict)`, else an error
unfoldable pub add_return : Outcome RunReturn → Totals → Totals
add_return (ok (plain s)) t = add_summary s t
add_return (ok (wrapped s)) t = record t { errors = t.errors + 1 }
add_return (raise e) t = record t { errors = t.errors + 1 }

unfoldable pub add_returns : List (Outcome RunReturn) → Totals → Totals
add_returns [] t = t
add_returns (r ∷ rs) t = add_returns rs (add_return r t)

-- `run_pipeline_once`, from what the orchestrators' `run` return or raise
unfoldable pub run_pipeline_once : List (Outcome RunReturn) → Totals
unfolding add_return add_returns
run_pipeline_once results = add_returns results no_totals

-- The `_last_cycle` of the application.
pub data CycleStatus : Type 0 where
  idle active completed : CycleStatus
  failed : String → CycleStatus

pub record LastCycle : Type 0 where
  pub cycle_id : Option String
  pub status : CycleStatus
  pub started_at : Option ℕ
  pub finished_at : Option ℕ
  pub summary : Option Totals

unfoldable pub begin_cycle : String → ℕ → LastCycle → LastCycle
begin_cycle cycle_id now c = record {
  cycle_id = some cycle_id;
  status = active;
  started_at = some now;
  finished_at = none;
  summary = none;
}

-- the loop over the orchestrators: the first exception ends it; the summaries are added by `get`,
-- which a `PipelineRunResult` has too
unfoldable pub poll_sources : List (Outcome RunReturn) → Totals → Outcome Totals
poll_sources [] t = ok t
poll_sources (ok r ∷ rs) t = poll_sources rs (add_summary (summary_of r) t)
poll_sources (raise e ∷ rs) t = raise e

-- the two ways to end; the error's text stands in the status, and the totals are dropped
unfoldable pub end_cycle : ℕ → LastCycle → Outcome Totals → LastCycle
end_cycle later c (ok t) = record c {
  status = completed;
  finished_at = some later;
  summary = some t;
}
end_cycle later c (raise e) = record c {
  status = failed e.text;
  finished_at = some later;
  summary = none;
}

-- `_run_poll_cycle`; what the orchestrators' `run` return or raise is given
unfoldable pub run_poll_cycle : String → ℕ → ℕ → List (Outcome RunReturn) → LastCycle → LastCycle
unfolding begin_cycle poll_sources end_cycle
run_poll_cycle cycle_id now later results c =
    end_cycle later (begin_cycle cycle_id now c) (poll_sources results no_totals)
