-- ===== src/Tasks/Recovery.antt =====
-- internal/tasks/manager.go across a restart of the process, and the writes that fail.
use text.Mathlib.Text.{◌==◌ as str_eq}
use zcr521_ai_mcp.Model.{Result}
use zcr521_ai_mcp.Tasks.Client.{
  submit, cancel, submit_locked, cancel_task, new_task, err, not_saved, ok, closed_manager,
}
use zcr521_ai_mcp.Tasks.Worker.{conclude}
use zcr521_ai_mcp.Common.{
  is_empty, ◌≡◌, false, some, lookup, true, if◌then◌else◌, ℕ, not, Text, Bool, arith, String, none,
  text_eq_iff, ◌||◌, lookup-insert, ◌⊎◌, ◌↔◌, text_eq_refl, lookup-erase, ◌∷◌, insert, [],
}
use zcr521_ai_mcp.Tasks.Data.{
  persist_locked, store, Env, Task, Manager, interrupted, failed, terminal, is_cancelling,
  cancelled, succeeded, timed_out, cancelling,
}
use zcr521_ai_mcp.Tasks.Restart.{load_task, is_unfinished, interrupt, resumable}

interrupt-status :
    (now : ℕ) (task : Task)
    → ((interrupt now task).status ≡ (if task.durable then interrupted else failed))
      × ((interrupt now task).id ≡ task.id)
      × (resumable (interrupt now task) ≡ task.durable)
      × (terminal (interrupt now task) ≡ not task.durable)
unfolding interrupt resumable terminal
interrupt-status now task = ground arith

-- A new process takes a task that has ended, or whose status it does not know, from its snapshot as
-- it is, if that names an id and a tool; no file changes.
pub load_task_ended :
    (env : Env) (task : Task) (m m' : Manager)
    → is_empty task.id ≡ false
    → is_empty task.tool ≡ false
    → load_task env task m ≡ some m'
    → is_unfinished task.status ≡ false
    → (lookup task.id m'.tasks ≡ some task) × (m'.disk ≡ m.disk)
unfolding load_task store
load_task_ended env task m m' id tool e whole =
    (ground (arith, text_eq_refl task.id, lookup-insert task.id task.id task m.tasks), ground arith)

-- A task that was queued, running or cancelling when its process ended, whose snapshot names an id
-- and a tool and is loaded: the map and the file hold the same task, which is interrupted and will
-- be resumed if it is durable, and otherwise has failed.
pub load_task_unfinished :
    (env : Env) (task : Task) (m m' : Manager)
    → is_empty task.id ≡ false
    → is_empty task.tool ≡ false
    → load_task env task m ≡ some m'
    → is_unfinished task.status ≡ true
    → (task' : Task) × (lookup task.id m'.tasks ≡ some task')
      × (lookup task.id m'.disk ≡ some task')
      × (task'.status ≡ (if task.durable then interrupted else failed))
      × (resumable task' ≡ task.durable)
      × (terminal task' ≡ not task.durable)
unfolding load_task persist_locked store
load_task_unfinished env task m m' id tool e cut =
    let task' = interrupt env.now task in
    let (status, same, resumed, ends) = interrupt-status env.now task in
    (
      task',
      ground (arith, text_eq_iff task'.id task.id, lookup-insert task'.id task.id task' m.tasks),
      ground (arith, text_eq_iff task'.id task.id, lookup-insert task'.id task.id task' m.disk),
      status,
      resumed,
      ends,
    )

-- From the lock on, for a new id.
submit_locked_outcome :
    (env : Env) (task : Task) (m : Manager) (j : Text)
    → lookup task.id m.tasks ≡ none
    → let (m', reply) = submit_locked env task m in
      ((reply ≡ ok task)
        × (lookup task.id m'.tasks ≡ some task)
        × (lookup task.id m'.disk ≡ some task)
        × (m.closed ≡ false))
      ⊎ ((((reply ≡ err closed_manager) × (m.closed ≡ true)) ⊎ (reply ≡ err not_saved))
          × (lookup j m'.tasks ≡ lookup j m.tasks)
          × (m'.disk ≡ m.disk))
unfolding submit_locked persist_locked store
submit_locked_outcome env task m j fresh = ground (
  arith,
  text_eq_refl task.id,
  text_eq_iff task.id j,
  lookup-insert task.id task.id task m.tasks,
  lookup-insert task.id task.id task m.disk,
  lookup-insert task.id j task m.tasks,
  lookup-erase task.id j (insert task.id task m.tasks),
)

-- A Submit of a named tool under a new id either answers with a queued task, which the map and the
-- file then hold, by a manager that is not closed; or it answers that the manager is closed or the
-- task was not saved, and every task in the map and every file is as before.
pub submit_outcome :
    (env : Env) (tool : Text) (raw : String) (heavy durable : Bool) (id : Text) (m : Manager)
    (j : Text)
    → lookup id m.tasks ≡ none
    → is_empty tool ≡ false
    → let task = new_task id tool raw heavy durable env.now in
      let (m', reply) = submit env tool (some raw) heavy durable (some id) m in
      ((reply ≡ ok task)
        × (lookup id m'.tasks ≡ some task)
        × (lookup id m'.disk ≡ some task)
        × (m.closed ≡ false))
      ⊎ ((((reply ≡ err closed_manager) × (m.closed ≡ true)) ⊎ (reply ≡ err not_saved))
          × (lookup j m'.tasks ≡ lookup j m.tasks)
          × (m'.disk ≡ m.disk))
unfolding submit new_task
submit_outcome env [] raw heavy durable id m j fresh named = cc
submit_outcome env (b ∷ tool) raw heavy durable id m j fresh named =
    submit_locked_outcome env (new_task id (b ∷ tool) raw heavy durable env.now) m j fresh

-- A Cancel of a task that has not ended, whose write fails: the caller is told of the failure, and
-- yet the task in memory is `cancelling`, while no context is stopped and no file changes.
pub cancel_unsaved :
    (env : Env) (id : Text) (task : Task) (m : Manager)
    → lookup id m.tasks ≡ some task
    → terminal task ≡ false
    → env.writes ≡ false
    → let (m', reply) = cancel env id m in
      (reply ≡ err not_saved)
      × (lookup id m'.tasks
          ≡ some (record task { status = cancelling; message = "正在取消"; updated_at = env.now }))
      × (m'.stopped ≡ m.stopped)
      × (m'.disk ≡ m.disk)
unfolding cancel cancel_task persist_locked store
cancel_unsaved env id task m found going fails =
    let task' : Task = record task {
      status = cancelling;
      message = "正在取消";
      updated_at = env.now;
    } in
    ground (arith, text_eq_refl id, lookup-insert id id task' m.tasks)

-- The end of a task: its last status is terminal; it is cancelled exactly if a Cancel came before or
-- its context was stopped, succeeded exactly if neither holds and its runner succeeded, and timed
-- out exactly if neither holds and its runner failed with the code TIMEOUT.
pub conclude_outcome :
    (was_cancelled : Bool) (result : Result) (task : Task)
    → let task' = conclude was_cancelled result task in
      let stops = is_cancelling task.status || was_cancelled in
      (terminal task' ≡ true)
      × ((task'.status ≡ cancelled) ↔ (stops ≡ true))
      × ((task'.status ≡ succeeded) ↔ ((stops ≡ false) × (result.success ≡ true)))
      × ((task'.status ≡ timed_out)
          ↔ ((stops ≡ false) × (result.success ≡ false) × (str_eq result.code "TIMEOUT" ≡ true)))
unfolding conclude terminal
conclude_outcome was_cancelled result task = ground arith
