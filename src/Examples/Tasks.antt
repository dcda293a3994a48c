-- ===== src/Examples/Tasks.antt =====
-- Runs of the task manager (internal/tasks/manager.go) on which its theorems say something.
use zcr521_ai_mcp.Tasks.Wakeups.{has_channel, waits_for, is_woken, waiter_woken}
use text.Mathlib.Text.{◌==◌ as str_eq}
use zcr521_ai_mcp.Tasks.Finality.{terminal_final, then', workers_apart, now}
use zcr521_ai_mcp.Tasks.Lives.{Distinct}
use zcr521_ai_mcp.Tasks.Recovery.{load_task_unfinished, submit_outcome, conclude_outcome}
use zcr521_ai_mcp.Tasks.Changes.{live}
use zcr521_ai_mcp.Tasks.Client.{
  new_task, submit, submit_locked, ok, err, not_saved, closed_manager, wait,
}
use zcr521_ai_mcp.Tasks.Worker.{
  conclude, slot, runs, spawn, run, run_phase, begin_task, complete, complete_task, release,
}
use zcr521_ai_mcp.Tasks.Data.{
  Manager, Task, terminal, new_manager, store, Env, cancelling, persist_locked, succeeded, one_bits,
  interrupted, running, cancelled, timed_out, notify_locked,
}
use zcr521_ai_mcp.Tasks.System.{
  System, boot, Reach, Action, step, stepped, submits, works, waits, booted, cancels, take_worker,
}
use zcr521_ai_mcp.Tasks.Restart.{new, load_task, load, resume_interrupted, interrupt, resumable}
use zcr521_ai_mcp.Tasks.Limits.{running_total}
use zcr521_ai_mcp.Tasks.Heavy.{running_heavy_tasks, running_bounded}
use zcr521_ai_mcp.Model.{failure, success}
use zcr521_ai_mcp.Common.{
  [], Text, lookup, All, codes, ◌≤◌, insert, ◌≡◌, true, erase, none, some, text_eq, false, refl,
  ◌⊎◌, ◌↔◌,
}

abbrev id_a : Text
id_a = codes "a"

abbrev calm : Env
calm = record { now = 5; encodes = λ _. true; writes = true }

abbrev full_disk : Env
full_disk = record { now = 6; encodes = λ _. true; writes = false }

abbrev made : Manager
made = new_manager 2 1

abbrev started_up : System
started_up = boot calm made

abbrev submission : Action
submission = submits calm (codes "shell") (some "{}") true true (some id_a)

abbrev submitted : System
submitted = step submission started_up

abbrev takes : Action
takes = works calm id_a slot

abbrev executing_a : System
executing_a = step takes (step takes (step takes (step takes submitted)))

abbrev waited : System
waited = step (waits id_a 7) executing_a

abbrev ended : System
ended = step (works calm id_a (runs (success "OK" "done" none))) waited

started_up-Reach : Reach started_up
unfolding new load
started_up-Reach = booted 2 1 true calm calm [] refl

executing_a-Reach : Reach executing_a
unfolding boot resume_interrupted new_manager lookup
executing_a-Reach =
    stepped takes
      (stepped takes
        (stepped takes (stepped takes (stepped submission started_up-Reach refl) tt) tt) tt)
      tt

waited-Reach : Reach waited
waited-Reach = stepped (waits id_a 7) executing_a-Reach tt

ended-Reach : Reach ended
ended-Reach = stepped (works calm id_a (runs (success "OK" "done" none))) waited-Reach tt

abbrev ended_task : Task
ended_task = record {
  id = id_a;
  tool = codes "shell";
  arguments = "{}";
  status = succeeded;
  progress = one_bits;
  message = "done";
  heavy = true;
  durable = true;
  created_at = 5;
  started_at = 5;
  updated_at = 5;
  completed_at = 5;
  result = some (success "OK" "done" none);
}

running_bounded_example :
    (running_total executing_a.workers ≤ executing_a.manager.total_limit)
    × (running_heavy_tasks executing_a.manager executing_a.workers
        ≤ executing_a.manager.heavy_limit)
running_bounded_example = running_bounded executing_a-Reach

ended-lookup : lookup id_a ended.manager.tasks ≡ some ended_task
unfolding lookup insert erase text_eq step boot resume_interrupted new_manager submit submit_locked
    new_task persist_locked store take_worker spawn run run_phase begin_task complete complete_task
    conclude notify_locked release wait terminal success
ended-lookup = refl

terminal_final_example :
    lookup id_a (step (cancels calm id_a) ended).manager.tasks ≡ some ended_task
unfolding terminal
terminal_final_example =
    terminal_final id_a ended_task ended-Reach (then' (cancels calm id_a) now tt) ended-lookup refl

abbrev finish : Action
finish = works calm id_a (runs (success "OK" "done" none))

waiter_woken_example :
    ((waits_for 7 id_a (step finish waited).manager ≡ true)
      × (live (lookup id_a (step finish waited).manager.tasks) ≡ true))
    ⊎ (is_woken 7 (step finish waited).manager ≡ true)
unfolding has_channel lookup insert erase text_eq step boot resume_interrupted new_manager submit
    submit_locked new_task persist_locked store take_worker spawn run run_phase begin_task complete
    complete_task conclude notify_locked release wait terminal success
waiter_woken_example = waiter_woken 7 id_a waited-Reach (then' finish now tt) refl

workers_apart_example :
    All (λ w. live (lookup w.id waited.manager.tasks) ≡ true) waited.workers
    × Distinct waited.workers
workers_apart_example = workers_apart waited-Reach

abbrev durable_task : Task
durable_task = record ended_task { status = cancelling; result = none }

abbrev reloaded : Manager
reloaded =
    store id_a (interrupt 5 durable_task)
      (record made { disk = insert id_a (interrupt 5 durable_task) made.disk })

load_task_unfinished_example :
    (task' : Task) × (lookup id_a reloaded.tasks ≡ some task')
    × (lookup id_a reloaded.disk ≡ some task')
    × (task'.status ≡ interrupted)
    × (resumable task' ≡ true)
    × (terminal task' ≡ false)
unfolding load_task persist_locked interrupt
load_task_unfinished_example =
    load_task_unfinished calm durable_task made reloaded refl refl refl refl

submit_outcome_example :
    let task = new_task id_a (codes "shell") "{}" true false 5 in
    let (m', reply) = submit calm (codes "shell") (some "{}") true false (some id_a) made in
    ((reply ≡ ok task)
      × (lookup id_a m'.tasks ≡ some task)
      × (lookup id_a m'.disk ≡ some task)
      × (made.closed ≡ false))
    ⊎ ((((reply ≡ err closed_manager) × (made.closed ≡ true)) ⊎ (reply ≡ err not_saved))
        × (lookup (codes "b") m'.tasks ≡ lookup (codes "b") made.tasks)
        × (m'.disk ≡ made.disk))
unfolding new_manager lookup
submit_outcome_example =
    submit_outcome calm (codes "shell") "{}" true false id_a made (codes "b") refl refl

abbrev holding : Manager
holding = store id_a durable_task made

conclude_outcome_example :
    let result = failure "TIMEOUT" "late" "Timeout" "late" in
    let task' = conclude false result (record durable_task { status = running }) in
    (terminal task' ≡ true)
    × ((task'.status ≡ cancelled) ↔ (false ≡ true))
    × ((task'.status ≡ succeeded) ↔ ((false ≡ false) × (result.success ≡ true)))
    × ((task'.status ≡ timed_out)
        ↔ ((false ≡ false) × (result.success ≡ false) × (str_eq result.code "TIMEOUT" ≡ true)))
conclude_outcome_example =
    conclude_outcome false (failure "TIMEOUT" "late" "Timeout" "late")
      (record durable_task { status = running })
