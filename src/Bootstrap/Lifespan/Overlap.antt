-- ===== src/Bootstrap/Lifespan/Overlap.antt =====
-- How many poll cycles run at once, and what `_last_cycle` says of them.
use lidenal85_blip.Base.{
  length, length-append, ℕ, suc, ◌+◌, ◌≤◌, ◌<◌, String, ◌≡◌, refl, ap, ◌∙◌, ◌≢◌, ◌↔◌, ◌⊎◌, inl, inr,
  Bool, true, some, List, [], ◌∷◌, ◌++◌, arith,
}
use lidenal85_blip.Contracts.Floats.{Outcome, ok, raise}
use lidenal85_blip.Pipeline.Orchestrator.{RunReturn}
use lidenal85_blip.Bootstrap.{
  no_totals, begin_cycle, poll_sources, end_cycle, Totals, LastCycle, active, completed,
}
use lidenal85_blip.Bootstrap.Lifespan.{
  max_instances, started, cycle_status, begin_on, end_on, shutdown, StartupTask, App, Step, Reach,
  pending, running, over, startup_begins, startup_ends, job_begins, job_ends, stops,
  startup_cancelled, job_cancelled, here, next,
}

abbrev pub startup_cycles : StartupTask → ℕ
startup_cycles pending = 0
startup_cycles (running cycle_id) = 1
startup_cycles over = 0

abbrev pub IsOneOf : String → List String → Type 0
IsOneOf cycle_id [] = ⊥
IsOneOf cycle_id (job ∷ jobs) = (job ≡ cycle_id) ⊎ IsOneOf cycle_id jobs

-- The cycle runs, of the task or of the job.
abbrev pub IsRunning : String → App → Type 0
IsRunning cycle_id a = (a.startup ≡ running cycle_id) ⊎ IsOneOf cycle_id a.jobs

-- One cycle of the job at most and two in all; and as long as the scheduler is on, a cycle that
-- `_last_cycle` calls active runs.
pub record IsSound (a : App) : Type 0 where
  pub one_job : length a.jobs ≤ 1
  pub two_cycles : startup_cycles a.startup + length a.jobs ≤ 2
  pub active_runs :
      a.scheduler_on ≡ true
      → a.last_cycle.status ≡ active
      → (cycle_id : String) × (a.last_cycle.cycle_id ≡ some cycle_id) × IsRunning cycle_id a

at_most_one : (task : StartupTask) → startup_cycles task ≤ 1
at_most_one pending = omega arith
at_most_one (running cycle_id) = omega arith
at_most_one over = omega arith

end_cycle-not_active :
    (later : ℕ) (c : LastCycle) (result : Outcome Totals)
    → (end_cycle later c result).status ≢ active
unfolding end_cycle
end_cycle-not_active later c (ok t) e = ground arith
end_cycle-not_active later c (raise x) e = ground arith

end_on-not_active :
    (later : ℕ) (results : List (Outcome RunReturn)) (a : App)
    → (end_on later results a).last_cycle.status ≢ active
unfolding end_on
end_on-not_active later results a =
    end_cycle-not_active later a.last_cycle (poll_sources results no_totals)

length-remove :
    (before after : List String) (cycle_id : String)
    → length (before ++ cycle_id ∷ after) ≡ suc (length (before ++ after))
length-remove before after cycle_id =
    omega (arith, length-append before (cycle_id ∷ after), length-append before after)

fewer_jobs :
    {jobs : List String} (before after : List String) (cycle_id : String)
    → jobs ≡ before ++ cycle_id ∷ after
    → length jobs ≡ suc (length (before ++ after))
fewer_jobs before after cycle_id split = ap length split ∙ length-remove before after cycle_id

module _ (submits : ℕ → ℕ → Bool)
    (kept : (bound running : ℕ) → (submits bound running ≡ true) ↔ (running < bound)) where
  Step-IsSound : {a b : App} → Step submits a b → IsSound a → IsSound b
  unfolding begin_on begin_cycle shutdown end_on
  Step-IsSound (startup_begins a cycle_id now e) sound = record {
    one_job = sound.one_job;
    two_cycles = omega (arith, sound.one_job);
    active_runs = λ on active. (cycle_id, refl, inl refl);
  }
  Step-IsSound (startup_ends a cycle_id later results e) sound = record {
    one_job = sound.one_job;
    two_cycles = omega (arith, sound.one_job);
    active_runs = λ on active. absurd (end_on-not_active later results a active);
  }
  Step-IsSound (job_begins a cycle_id now on free) sound = record {
    one_job = omega (arith, (kept max_instances (length a.jobs)).0 free);
    two_cycles = omega (arith, (kept max_instances (length a.jobs)).0 free, at_most_one a.startup);
    active_runs = λ on' active. (cycle_id, refl, inr (inl refl));
  }
  Step-IsSound (job_ends a cycle_id before after later results e) sound = record {
    one_job = omega (arith, fewer_jobs before after cycle_id e, sound.one_job);
    two_cycles = omega (arith, fewer_jobs before after cycle_id e, sound.two_cycles);
    active_runs = λ on active. absurd (end_on-not_active later results a active);
  }
  Step-IsSound (stops a) sound = record {
    one_job = sound.one_job;
    two_cycles = sound.two_cycles;
    active_runs = λ on active. absurd (ground arith);
  }
  Step-IsSound (startup_cancelled a off) sound = record {
    one_job = sound.one_job;
    two_cycles = omega (arith, sound.one_job);
    active_runs = λ on active. absurd (ground arith);
  }
  Step-IsSound (job_cancelled a cycle_id before after off e) sound = record {
    one_job = omega (arith, fewer_jobs before after cycle_id e, sound.one_job);
    two_cycles = omega (arith, fewer_jobs before after cycle_id e, sound.two_cycles);
    active_runs = λ on active. absurd (ground arith);
  }

  -- If the scheduler starts an instance of a job exactly when fewer than `max_instances` of it
  -- run, then in every state that the application reaches at most one cycle of the job runs and
  -- at most two cycles run in all; and while the scheduler is on, when /cycle/status says active,
  -- a cycle with the identifier that it shows runs.
  pub Reach-IsSound : {a : App} → Reach submits started a → IsSound a
  unfolding started
  Reach-IsSound here = record {
    one_job = omega arith;
    two_cycles = omega arith;
    active_runs = λ on active. absurd (ground arith);
  }
  Reach-IsSound (next r s) = Step-IsSound s (Reach-IsSound r)

  -- If the scheduler starts an instance of a job exactly when fewer than `max_instances` of it
  -- run, then the cycle of the start and one of the job may run at once: whenever the
  -- orchestrators of the first return, the application reaches a state in which the second cycle
  -- still runs and /cycle/status says that it is completed, with the totals of the first.
  pub overlap_mixes :
      (first second : String) (start tick later : ℕ) (results : List (Outcome RunReturn))
      (t : Totals)
      → poll_sources results no_totals ≡ ok t
      → (a : App) × Reach submits started a
        × (a.jobs ≡ second ∷ [])
        × (cycle_status a ≡ record {
          cycle_id = some second;
          status = completed;
          started_at = some tick;
          finished_at = some later;
          summary = some t;
        })
  unfolding started begin_on begin_cycle end_on end_cycle cycle_status
  overlap_mixes first second start tick later results t e = (
    _,
    next
        (next (next here (startup_begins started first start refl))
          (job_begins _ second tick refl ((kept max_instances 0).1 (omega arith))))
        (startup_ends _ first later results refl),
    refl,
    rw e refl,
  )
