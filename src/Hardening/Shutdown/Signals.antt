-- ===== src/Hardening/Shutdown/Signals.antt =====
-- hardening/shutdown.py: `graceful_shutdown_context`, whose signal handlers start shutdowns that
-- interleave at the awaits of the hooks. A step is what runs between two awaits.
use lidenal85_blip.Base.{
  Bool-cases, if◌then◌else◌, length, length-append, take, take-length-append, ℕ, suc, ◌+◌, String,
  ◌≡◌, refl, sym, ap, ◌∙◌, ◌≢◌, ◌⊎◌, inl, inr, Bool, true, false, List, [], ◌∷◌, ◌++◌, append_assoc,
  arith,
}
use lidenal85_blip.Hardening.Shutdown.{init, register, GracefulShutdown}

-- The object, the hooks that ran, whether the signal handlers are set, the tasks that wait to
-- call `shutdown`, and the loops over the hooks that are under way, each with its position.
pub record Process : Type 0 where
  pub object : GracefulShutdown
  pub ran : List String
  pub has_handlers : Bool
  pub tasks : ℕ
  pub loops : List ℕ

unfoldable pub at_start : Process
unfolding init
at_start = record { object = init; ran = []; has_handlers = false; tasks = 0; loops = [] }

-- a task calls `shutdown`, up to the first hook
unfoldable pub call_shutdown : Process → Process
call_shutdown p = if p.object.is_shutting_down then p else record p {
  object = record p.object { is_shutting_down = true; shutdown_event = true };
  loops = 0 ∷ p.loops;
}

pub data Step : Process → Process → Type 0 where
  registers : (p : Process) (hook : String) → Step p (record p { object = register hook p.object })
  -- the two halves of `graceful_shutdown_context`
  enters : (p : Process) → Step p (record p { has_handlers = true })
  leaves : (p : Process) → Step p (record p { has_handlers = false })
  -- `signal_handler`; without it the signal ends the process
  signalled : (p : Process) → p.has_handlers ≡ true → Step p (record p { tasks = p.tasks + 1 })
  -- a call of `shutdown` from elsewhere
  called : (p : Process) → Step p (call_shutdown p)
  task_runs :
      (p : Process) (n : ℕ) → p.tasks ≡ suc n → Step p (record (call_shutdown p) { tasks = n })
  -- a round of one of the loops, whether its hook returns or raises
  hook_runs :
      (p : Process) (hook : String) (front back : List String) (before after : List ℕ)
      → p.loops ≡ before ++ length front ∷ after
      → p.object.shutdown_hooks ≡ front ++ hook ∷ back
      → Step p (record p { ran = p.ran ++ hook ∷ []; loops = before ++ suc (length front) ∷ after })
  loop_ends :
      (p : Process) (before after : List ℕ)
      → p.loops ≡ before ++ length p.object.shutdown_hooks ∷ after
      → Step p (record p { loops = before ++ after })
  -- a hook is cancelled: `except Exception` lets that pass
  loop_cancelled :
      (p : Process) (position : ℕ) (before after : List ℕ)
      → p.loops ≡ before ++ position ∷ after
      → Step p (record p { loops = before ++ after })

pub data Reach (p : Process) : Process → Type 0 where
  here : Reach p p
  next : {q r : Process} → Reach p q → Step q r → Reach p r

-- The hooks that ran are the first ones registered, in their order, each once; one loop at most
-- is under way, and it stands behind them; none ran before a shutdown began; and the event is set
-- exactly when one began.
pub record IsOrderly (p : Process) : Type 0 where
  pub in_order : (left : List String) × (p.object.shutdown_hooks ≡ p.ran ++ left)
  pub one_loop : (p.loops ≡ []) ⊎ (p.loops ≡ length p.ran ∷ [])
  pub after_call : p.object.is_shutting_down ≡ false → (p.ran ≡ []) × (p.loops ≡ [])
  pub event_set : p.object.shutdown_event ≡ p.object.is_shutting_down

call_shutdown-IsOrderly : (p : Process) → IsOrderly p → IsOrderly (call_shutdown p)
unfolding call_shutdown
call_shutdown-IsOrderly p orderly =
    let (left, split) = orderly.in_order in
    record {
      in_order = (left, ground (arith, split));
      one_loop = elim (Bool-cases p.object.is_shutting_down) [
        | inl busy ↦ ground (arith, busy, orderly.one_loop)
        | inr idle ↦
            let (none_ran, no_loops) = orderly.after_call idle in
            inr (ground (arith, idle, none_ran, no_loops))
      ];
      after_call = λ h. absurd (ground arith);
      event_set = ground (arith, orderly.event_set);
    }

-- The one loop that is under way is the one that a step takes.
only_loop :
    (loops before after : List ℕ) (position n : ℕ)
    → (loops ≡ []) ⊎ (loops ≡ n ∷ [])
    → loops ≡ before ++ position ∷ after
    → (before ≡ []) × (after ≡ []) × (position ≡ n)
only_loop loops [] after position n one split = ground arith
only_loop loops (b ∷ []) after position n one split = absurd (ground arith)
only_loop loops (b ∷ c ∷ before) after position n one split = absurd (ground arith)

not_idle :
    (p : Process) (before after : List ℕ) (position : ℕ)
    → IsOrderly p
    → p.loops ≡ before ++ position ∷ after
    → p.object.is_shutting_down ≢ false
not_idle p [] after position orderly split idle = ground (arith, orderly.after_call idle)
not_idle p (b ∷ before) after position orderly split idle = ground (arith, orderly.after_call idle)

with_tasks : (p : Process) (n : ℕ) → IsOrderly p → IsOrderly (record p { tasks = n })
with_tasks p n orderly = record {
  in_order = orderly.in_order;
  one_loop = orderly.one_loop;
  after_call = orderly.after_call;
  event_set = orderly.event_set;
}

with_handlers : (p : Process) (b : Bool) → IsOrderly p → IsOrderly (record p { has_handlers = b })
with_handlers p b orderly = record {
  in_order = orderly.in_order;
  one_loop = orderly.one_loop;
  after_call = orderly.after_call;
  event_set = orderly.event_set;
}

without_loop :
    (p : Process) (before after : List ℕ) (position : ℕ)
    → p.loops ≡ before ++ position ∷ after
    → IsOrderly p
    → IsOrderly (record p { loops = before ++ after })
without_loop p before after position split orderly =
    let (no_before, no_after, at) =
      only_loop p.loops before after position (length p.ran) orderly.one_loop split in
    record {
      in_order = orderly.in_order;
      one_loop = inl (ground (arith, no_before, no_after));
      after_call = λ idle. absurd (not_idle p before after position orderly split idle);
      event_set = orderly.event_set;
    }

-- The hooks up to a loop's position are those that ran.
front-eq-ran :
    (hooks ran left front : List String) (hook : String) (back : List String)
    → hooks ≡ ran ++ left
    → hooks ≡ front ++ hook ∷ back
    → length front ≡ length ran
    → front ≡ ran
front-eq-ran hooks ran left front hook back split at same =
    sym (take-length-append front (hook ∷ back))
    ∙ ap (take (length front)) (sym at ∙ split)
    ∙ ap (λ (n : ℕ). take n (ran ++ left)) same
    ∙ take-length-append ran left

Step-IsOrderly : {p q : Process} → Step p q → IsOrderly p → IsOrderly q
unfolding register
Step-IsOrderly (registers p hook) orderly =
    let (left, split) = orderly.in_order in
    record {
      in_order = (left ++ hook ∷ [], rw split (append_assoc p.ran left (hook ∷ [])));
      one_loop = orderly.one_loop;
      after_call = orderly.after_call;
      event_set = orderly.event_set;
    }
Step-IsOrderly (enters p) orderly = with_handlers p true orderly
Step-IsOrderly (leaves p) orderly = with_handlers p false orderly
Step-IsOrderly (signalled p h) orderly = with_tasks p (p.tasks + 1) orderly
Step-IsOrderly (called p) orderly = call_shutdown-IsOrderly p orderly
Step-IsOrderly (task_runs p n h) orderly =
    with_tasks (call_shutdown p) n (call_shutdown-IsOrderly p orderly)
Step-IsOrderly (hook_runs p hook front back before after split at) orderly =
    let (left, in_order) = orderly.in_order in
    let (no_before, no_after, position) =
      only_loop p.loops before after (length front) (length p.ran) orderly.one_loop split in
    let ran : front ≡ p.ran =
      front-eq-ran p.object.shutdown_hooks p.ran left front hook back in_order at position in
    record {
      in_order = (
        back,
        at
            ∙ ap (λ (l : List String). l ++ hook ∷ back) ran
            ∙ sym (append_assoc p.ran (hook ∷ []) back),
      );
      one_loop = inr (ground (arith, no_before, no_after, length-append p.ran (hook ∷ [])));
      after_call = λ idle. absurd (not_idle p before after (length front) orderly split idle);
      event_set = orderly.event_set;
    }
Step-IsOrderly (loop_ends p before after split) orderly =
    without_loop p before after (length p.object.shutdown_hooks) split orderly
Step-IsOrderly (loop_cancelled p position before after split) orderly =
    without_loop p before after position split orderly

-- However registrations, signals, calls of `shutdown` and the rounds of its loop interleave, and
-- whether the hooks return, raise or are cancelled: the hooks that ran are the first ones
-- registered, in their order and each once; at most one loop over the hooks is under way, and
-- its position is the number of the hooks that ran; none ran before a shutdown began; and the
-- event is set exactly when one began.
pub Reach-IsOrderly : {p : Process} → Reach at_start p → IsOrderly p
unfolding at_start
Reach-IsOrderly here = record {
  in_order = ([], refl);
  one_loop = inl refl;
  after_call = λ h. (refl, refl);
  event_set = refl;
}
Reach-IsOrderly (next r s) = Step-IsOrderly s (Reach-IsOrderly r)
