-- ===== src/Hardening/Shutdown.antt =====
-- hardening/shutdown.py: GracefulShutdown. A hook is known by its name, and what awaiting it does
-- is given. Log lines are left out; Hardening/Shutdown/Signals has the signal handlers.
pub mod Signals
use lidenal85_blip.Base.{
  if◌then◌else◌, length, ℕ, zero, suc, ◌+◌, ◌<◌, String, ◌≡◌, refl, ap, ◌∙◌, Bool, true, false,
  Option, none, some, List, [], ◌∷◌, ◌++◌, append_assoc, append-nil, arith,
}
use lidenal85_blip.Contracts.Floats.{Outcome, ok, raise}

pub record GracefulShutdown : Type 0 where
  pub shutdown_hooks : List String
  pub shutdown_event : Bool
  pub is_shutting_down : Bool

unfoldable pub init : GracefulShutdown
init = record { shutdown_hooks = []; shutdown_event = false; is_shutting_down = false }

unfoldable pub register : String → GracefulShutdown → GracefulShutdown
register hook s = record s { shutdown_hooks = s.shutdown_hooks ++ hook ∷ [] }

-- What awaiting a hook does: the hooks that it registers meanwhile, and how it ends.
pub record HookRun : Type 0 where
  pub registered : List String
  pub ending : Outcome (Unit {0})

-- an exception of a hook is caught, and the loop goes on
goes_on : {A : Type 0} → Outcome (Unit {0}) → A → A
goes_on (ok _) later = later
goes_on (raise e) later = later

-- The loop over the list of hooks, which grows while it runs. `done` is the hooks that ran,
-- `left` those still to run; fuel is the rounds left, and the answer is all hooks, in the order
-- in which they ran.
unfoldable pub run_hooks : (String → HookRun) → ℕ → List String → List String → Option (List String)
unfolding goes_on
run_hooks await_hook zero done left = none
run_hooks await_hook (suc fuel) done [] = some done
run_hooks await_hook (suc fuel) done (hook ∷ left) =
    let run = await_hook hook in
    goes_on run.ending (run_hooks await_hook fuel (done ++ hook ∷ []) (left ++ run.registered))

finished : GracefulShutdown → Option (List String) → Option (GracefulShutdown × List String)
finished s none = none
finished s (some ran) =
    some (record s { shutdown_hooks = ran; is_shutting_down = true; shutdown_event = true }, ran)

-- `shutdown`, with the hooks that it ran
unfoldable pub shutdown :
    (String → HookRun) → ℕ → GracefulShutdown → Option (GracefulShutdown × List String)
unfolding finished
shutdown await_hook fuel s =
    if s.is_shutting_down
    then some (s, [])
    else finished s (run_hooks await_hook fuel [] s.shutdown_hooks)

goes_on_later : {A : Type 0} (o : Outcome (Unit {0})) (later : A) → goes_on o later ≡ later
unfolding goes_on
goes_on_later (ok _) later = refl
goes_on_later (raise e) later = refl

abbrev pub Silent : (String → HookRun) → Type 0
Silent await_hook = (hook : String) → (await_hook hook).registered ≡ []

run_hooks-all :
    (await_hook : String → HookRun) (fuel : ℕ) (done left : List String)
    → Silent await_hook
    → length left < fuel
    → run_hooks await_hook fuel done left ≡ some (done ++ left)
unfolding run_hooks
run_hooks-all await_hook zero done left silent enough = absurd (omega arith)
run_hooks-all await_hook (suc fuel) done [] silent enough = rw (append-nil done) refl
run_hooks-all await_hook (suc fuel) done (hook ∷ left) silent enough =
    goes_on_later (await_hook hook).ending
      (run_hooks await_hook fuel (done ++ hook ∷ []) (left ++ (await_hook hook).registered))
    ∙ ap (λ (more : List String). run_hooks await_hook fuel (done ++ hook ∷ []) (left ++ more))
        (silent hook)
    ∙ ap (run_hooks await_hook fuel (done ++ hook ∷ [])) (append-nil left)
    ∙ run_hooks-all await_hook fuel (done ++ hook ∷ []) left silent (omega arith)
    ∙ ap (λ (all : List String). some all) (append_assoc done (hook ∷ []) left)

-- What is registered before the first shutdown, in order: `register` for each.
unfoldable pub register_all : List String → GracefulShutdown → GracefulShutdown
register_all [] s = s
register_all (hook ∷ hooks) s = register_all hooks (register hook s)

register_all-hooks :
    (hooks : List String) (s : GracefulShutdown)
    → register_all hooks s ≡ record s { shutdown_hooks = s.shutdown_hooks ++ hooks }
unfolding register_all register
register_all-hooks [] s = rw (append-nil s.shutdown_hooks) refl
register_all-hooks (hook ∷ hooks) s =
    register_all-hooks hooks (register hook s)
    ∙ ap (λ (all : List String). record s { shutdown_hooks = all })
        (append_assoc s.shutdown_hooks (hook ∷ []) hooks)

-- When no hook registers another, the first shutdown ends, in a round more than there are hooks,
-- and has run each registered hook once, in the order of registration, also when hooks raise; a
-- second one runs none, whatever the hooks would then do.
pub shutdown_once :
    (await_hook again : String → HookRun) (hooks : List String) (fuel : ℕ)
    → Silent await_hook
    → (first : GracefulShutdown) × (shutdown await_hook (length hooks + 1) (register_all hooks init)
        ≡ some (first, hooks))
      × (shutdown again fuel first ≡ some (first, []))
unfolding shutdown init
shutdown_once await_hook again hooks fuel silent = (
  record { shutdown_hooks = hooks; shutdown_event = true; is_shutting_down = true },
  rw (register_all-hooks hooks init) (
      ap (finished init)
        (run_hooks-all await_hook (length hooks + 1) [] hooks silent (omega arith))),
  refl,
)
