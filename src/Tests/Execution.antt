-- ===== src/Tests/Execution.antt =====
-- The execution layer's theorems at small runs.
use lidenal85_blip.Base.{string_eq, true, some, [], ◌∷◌}
use lidenal85_blip.Execution.LeaseLock.{}
use lidenal85_blip.Execution.Controller

-- A second cycle is refused while the first one runs.
abbrev one_cycle : Controller.System
one_cycle = record {
  controller = record { locked = true; active_cycle_id = some "c1" };
  running = "c1" ∷ [];
}

one_cycle-Reach : Controller.Reach Controller.start one_cycle
unfolding Controller.acquire
one_cycle-Reach =
    Controller.next (Controller.next Controller.here (Controller.begin_step Controller.start "c1"))
      (Controller.begin_step one_cycle "c2")

Reach-IsExclusive_example : Controller.IsExclusive one_cycle
Reach-IsExclusive_example = Controller.Reach-IsExclusive one_cycle-Reach
