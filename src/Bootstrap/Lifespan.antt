-- ===== src/Bootstrap/Lifespan.antt =====
-- `lifespan` of bootstrap/app.py: the cycle that a task runs at the start, and those that the
-- scheduler starts at its interval, as steps that interleave at the awaits of a cycle. A cycle's
-- identifier, the times and what its orchestrators return or raise are given.
pub mod Overlap
use lidenal85_blip.Base.{length, ℕ, String, ◌≡◌, Bool, true, false, none, List, [], ◌∷◌, ◌++◌}
use lidenal85_blip.Contracts.Floats.{Outcome}
use lidenal85_blip.Pipeline.Orchestrator.{RunReturn}
use lidenal85_blip.Bootstrap.{no_totals, begin_cycle, poll_sources, end_cycle, LastCycle, idle}

-- The task of `asyncio.create_task(_run_poll_cycle())`.
pub data StartupTask : Type 0 where
  pending : StartupTask
  running : String → StartupTask
  over : StartupTask

-- The application: `_last_cycle`, the task, the identifiers of the job's cycles that run, and
-- whether the scheduler is on.
pub record App : Type 0 where
  pub last_cycle : LastCycle
  pub startup : StartupTask
  pub jobs : List String
  pub scheduler_on : Bool

-- `max_instances` of `add_job`
abbrev pub max_instances : ℕ
max_instances = 1

-- after the first half of `lifespan`
unfoldable pub started : App
started = record {
  last_cycle = record {
    cycle_id = none;
    status = idle;
    started_at = none;
    finished_at = none;
    summary = none;
  };
  startup = pending;
  jobs = [];
  scheduler_on = true;
}

-- the endpoint /cycle/status
unfoldable pub cycle_status : App → LastCycle
cycle_status a = a.last_cycle

-- `_run_poll_cycle` up to its first await
unfoldable pub begin_on : String → ℕ → App → App
begin_on cycle_id now a = record a { last_cycle = begin_cycle cycle_id now a.last_cycle }

-- `_run_poll_cycle` from its last await
unfoldable pub end_on : ℕ → List (Outcome RunReturn) → App → App
end_on later results a = record a {
  last_cycle = end_cycle later a.last_cycle (poll_sources results no_totals);
}

unfoldable pub shutdown : App → App
shutdown a = record a { scheduler_on = false }

-- Whether the scheduler starts an instance of a job, given `max_instances` and the instances that
-- run.
module _ (submits : ℕ → ℕ → Bool) where
  -- A cycle is cancelled only once the application stops, and `except Exception` does not see it.
  pub data Step : App → App → Type 0 where
    startup_begins :
        (a : App) (cycle_id : String) (now : ℕ)
        → a.startup ≡ pending
        → Step a (record (begin_on cycle_id now a) { startup = running cycle_id })
    startup_ends :
        (a : App) (cycle_id : String) (later : ℕ) (results : List (Outcome RunReturn))
        → a.startup ≡ running cycle_id
        → Step a (record (end_on later results a) { startup = over })
    job_begins :
        (a : App) (cycle_id : String) (now : ℕ)
        → a.scheduler_on ≡ true
        → submits max_instances (length a.jobs) ≡ true
        → Step a (record (begin_on cycle_id now a) { jobs = cycle_id ∷ a.jobs })
    job_ends :
        (a : App) (cycle_id : String) (before after : List String) (later : ℕ)
        (results : List (Outcome RunReturn))
        → a.jobs ≡ before ++ cycle_id ∷ after
        → Step a (record (end_on later results a) { jobs = before ++ after })
    stops : (a : App) → Step a (shutdown a)
    startup_cancelled : (a : App) → a.scheduler_on ≡ false → Step a (record a { startup = over })
    job_cancelled :
        (a : App) (cycle_id : String) (before after : List String)
        → a.scheduler_on ≡ false
        → a.jobs ≡ before ++ cycle_id ∷ after
        → Step a (record a { jobs = before ++ after })

  pub data Reach (a : App) : App → Type 0 where
    here : Reach a a
    next : {b c : App} → Reach a b → Step b c → Reach a c
