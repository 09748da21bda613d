-- ===== src/Execution/Controller.antt =====
-- execution/orchestrator/controller.py: ExecutionController, whose lock is taken without
-- blocking. The identifier of a cycle is given; what the handler does in between is a sequence of
-- other steps. To take the lock and to write the identifier is one step, and so is to clear it
-- and to let the lock go: only the thread that holds the lock writes the identifier.
use lidenal85_blip.Base.{
  if◌then◌else◌, length, length-append, ℕ, String, ◌≡◌, refl, sym, ap, ◌∙◌, ◌⊎◌, inl, inr, Bool,
  true, false, Option, none, some, List, [], ◌∷◌, ◌++◌, arith,
}

pub record ExecutionController : Type 0 where
  pub locked : Bool
  pub active_cycle_id : Option String

unfoldable pub init : ExecutionController
init = record { locked = false; active_cycle_id = none }

-- `_acquire`; none is the RuntimeError
unfoldable pub acquire : String → ExecutionController → ExecutionController × Option String
acquire cycle_id c =
    if c.locked
    then (c, none)
    else (record { locked = true; active_cycle_id = some cycle_id }, some cycle_id)

unfoldable pub release : ExecutionController → ExecutionController
release c = record { locked = false; active_cycle_id = none }

pub data Status : Type 0 where
  success failed : Status

pub record CycleResult : Type 0 where
  pub cycle_id : String
  pub status : Status
  pub duration_ms : ℕ

-- The end of `run_cycle`, when the handler has returned or raised.
unfoldable pub end_cycle :
    String → Bool → ℕ → ExecutionController → ExecutionController × CycleResult
unfolding release
end_cycle cycle_id raised duration_ms c = (
  release c,
  record {
    cycle_id = cycle_id;
    status = if raised then failed else success;
    duration_ms = duration_ms;
  },
)

-- The controller with the cycles whose handlers run.
pub record System : Type 0 where
  pub controller : ExecutionController
  pub running : List String

abbrev pub with_begun : ExecutionController × Option String → List String → System
with_begun (c, none) running = record { controller = c; running = running }
with_begun (c, some cycle_id) running = record {
  controller = c;
  running = running ++ cycle_id ∷ [];
}

-- Some thread calls `run_cycle`, or the handler of a cycle that runs returns or raises.
pub data Step : System → System → Type 0 where
  begin_step :
      (s : System) (cycle_id : String)
      → Step s (with_begun (acquire cycle_id s.controller) s.running)
  end_step :
      (s : System) (before after : List String) (cycle_id : String) (raised : Bool)
      (duration_ms : ℕ)
      → s.running ≡ before ++ cycle_id ∷ after
      → Step s (record {
        controller = (end_cycle cycle_id raised duration_ms s.controller).0;
        running = before ++ after;
      })

pub data Reach (s : System) : System → Type 0 where
  here : Reach s s
  next : {t u : System} → Reach s t → Step t u → Reach s u

abbrev pub start : System
start = record { controller = record { locked = false; active_cycle_id = none }; running = [] }

-- The controller knows the cycle that runs, if one does.
pub IsExclusive : System → Type 0
IsExclusive s =
    ((s.controller.locked ≡ false) × (s.running ≡ []))
    ⊎ ((cycle_id : String) × (s.controller.locked ≡ true)
        × (s.controller.active_cycle_id ≡ some cycle_id)
        × (s.running ≡ cycle_id ∷ []))

split_single :
    (before after : List String) (x y : String)
    → x ∷ [] ≡ before ++ y ∷ after
    → before ++ after ≡ []
split_single [] after x y e = ground arith
split_single (b ∷ []) after x y e = absurd (omega (arith, ap length e))
split_single (b ∷ c ∷ before) after x y e = absurd (omega (arith, ap length e))

Step-IsExclusive : {s t : System} → Step s t → IsExclusive s → IsExclusive t
unfolding IsExclusive acquire end_cycle release
Step-IsExclusive (begin_step s cycle_id) (inl (free, none_run)) =
    rw (free, none_run) (inr (cycle_id, refl, refl, refl))
Step-IsExclusive (begin_step s cycle_id) (inr (id, held, known, one_runs)) =
    rw held (inr (id, refl, known, one_runs))
Step-IsExclusive (end_step s before after cycle_id raised ms e) (inl (free, none_run)) =
    absurd (omega (arith, ap length (sym none_run ∙ e), length-append before (cycle_id ∷ after)))
Step-IsExclusive (end_step s before after cycle_id raised ms e) (inr (id, held, known, one_runs)) =
    inl (refl, split_single before after id cycle_id (sym one_runs ∙ e))

-- Whatever threads call `run_cycle`, and however their cycles end, at any time at most one
-- handler runs, and the controller is locked with its identifier exactly while it does.
pub Reach-IsExclusive : {t : System} → Reach start t → IsExclusive t
unfolding IsExclusive
Reach-IsExclusive here = inl (refl, refl)
Reach-IsExclusive (next r st) = Step-IsExclusive st (Reach-IsExclusive r)
