-- ===== src/Tests/Signals.antt =====
-- Two signals while two hooks are registered.
use lidenal85_blip.Base.{refl, true, [], ◌∷◌}
use lidenal85_blip.Hardening.Shutdown.{init, register}
use lidenal85_blip.Hardening.Shutdown.Signals.{
  at_start, call_shutdown, Reach-IsOrderly, Process, Reach, IsOrderly, registers, enters, signalled,
  task_runs, hook_runs, here, next,
}

abbrev two_hooks : Process
two_hooks = record {
  object = register "close_redis" (register "close_browser" init);
  ran = [];
  has_handlers = true;
  tasks = 2;
  loops = [];
}

abbrev one_ran : Process
one_ran = record two_hooks {
  object = record two_hooks.object { is_shutting_down = true; shutdown_event = true };
  ran = "close_browser" ∷ [];
  tasks = 0;
  loops = 1 ∷ [];
}

signals-Reach : Reach at_start one_ran
unfolding at_start call_shutdown register init
signals-Reach =
    next
      (next
        (next
          (next
            (next
              (next (next (next here (registers _ "close_browser")) (registers _ "close_redis"))
                (enters _))
              (signalled _ refl))
            (signalled _ refl))
          (task_runs _ 1 refl))
        (hook_runs _ "close_browser" [] ("close_redis" ∷ []) [] [] refl refl))
      (task_runs _ 0 refl)

Reach-IsOrderly_example : IsOrderly one_ran
Reach-IsOrderly_example = Reach-IsOrderly signals-Reach
