-- ===== src/Runtime/ExecutionController.antt =====
-- runtime/execution_controller.py, whose class is that of execution/orchestrator/controller.py: a
-- whole `run_cycle`, from what the handler does, in a thread of its own.
use lidenal85_blip.Base.{ℕ, String, ◌≡◌, Bool, true, false, Option, none, some, arith}
use lidenal85_blip.Contracts.Floats.{Raised, Outcome, runtime_error, ok, raise}
use lidenal85_blip.Execution.Controller.{
  ExecutionController, acquire, end_cycle, CycleResult, failed,
}

abbrev raises : Outcome (Unit {0}) → Bool
raises (ok _) = false
raises (raise e) = true

after_acquire :
    (ExecutionController → ExecutionController)
    → Outcome (Unit {0})
    → ℕ
    → ExecutionController × Option String
    → ExecutionController × Outcome CycleResult
after_acquire meanwhile handler duration_ms (c, none) =
    (c, raise (record { class_of = runtime_error; text = "cycle_already_running" }))
after_acquire meanwhile handler duration_ms (c, some cycle_id) =
    let (c', result) = end_cycle cycle_id (raises handler) duration_ms (meanwhile c) in
    (c', ok result)

-- `run_cycle`; `meanwhile` is what other threads do to the controller while the handler runs
unfoldable pub run_cycle :
    String
    → (ExecutionController → ExecutionController)
    → Outcome (Unit {0})
    → ℕ
    → ExecutionController
    → ExecutionController × Outcome CycleResult
unfolding after_acquire
run_cycle cycle_id meanwhile handler duration_ms c =
    after_acquire meanwhile handler duration_ms (acquire cycle_id c)

-- A handler that itself runs a cycle of the same controller fails with the RuntimeError, and the
-- cycle it stands in ends as failed if it does not catch that.
pub nested_cycle_fails :
    (outer inner : String) (meanwhile : ExecutionController → ExecutionController)
    (handler : Outcome (Unit {0})) (duration_ms inner_ms : ℕ) (c : ExecutionController)
    → c.locked ≡ false
    → let busy = (acquire outer c).0 in
      let (unchanged, answer) = run_cycle inner meanwhile handler inner_ms busy in
      (unchanged ≡ busy)
      × ((e : Raised) × (answer ≡ raise e)
          × ((run_cycle outer
                (λ x. (run_cycle inner meanwhile handler inner_ms x).0)
                (raise e)
                duration_ms
                c).1
              ≡ ok (record { cycle_id = outer; status = failed; duration_ms = duration_ms })))
unfolding run_cycle acquire end_cycle
nested_cycle_fails outer inner meanwhile handler duration_ms inner_ms c free = (
  ground arith,
  (record { class_of = runtime_error; text = "cycle_already_running" }, ground arith, ground arith),
)
