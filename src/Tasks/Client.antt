-- ===== src/Tasks/Client.antt =====
-- The calls of a client in internal/tasks/manager.go: Submit, Get, Cancel, Update, Wait and Close.
-- Wait reads the task twice before it registers; the model has the second, locked read.
use zcr521_ai_mcp.Common.{
  ℕ, Bool, true, ◌||◌, Option, none, some, [], ◌∷◌, ◌++◌, Text, lookup, insert, erase, String,
  is_empty, if◌then◌else◌,
}
use zcr521_ai_mcp.Tasks.Data.{
  queued, cancelling, Task, Manager, Env, terminal, float_lt_zero, float_gt_one, persist_locked,
  waiters_of, store,
}

pub data Error : Type 0 where
  tool_required closed_manager not_exist terminal_task bad_progress not_saved cancelled_wait : Error
  bad_arguments no_random : Error

pub data Reply {ℓ} (A : Type ℓ) : Type ℓ where
  ok : A → Reply A
  err : Error → Reply A

-- The task that Submit makes. It is given the encoded arguments and the random id, either of which
-- may be missing.
unfoldable pub new_task : Text → Text → String → Bool → Bool → ℕ → Task
new_task id tool arguments heavy durable now = record {
  id = id;
  tool = tool;
  arguments = arguments;
  status = queued;
  progress = 0;
  message = "等待执行";
  heavy = heavy;
  durable = durable;
  created_at = now;
  started_at = 0;
  updated_at = now;
  completed_at = 0;
  result = none;
}

-- From the lock on. A task that cannot be saved is taken out of the map again.
unfoldable pub submit_locked : Env → Task → Manager → Manager × Reply Task
submit_locked env task m =
    if m.closed
    then (m, err closed_manager)
    else (let (saved, m') = persist_locked env task (store task.id task m) in
        if saved
        then (m', ok task)
        else (record m' { tasks = erase task.id m'.tasks }, err not_saved))

abbrev submit_id : Env → Text → String → Bool → Bool → Manager → Option Text → Manager × Reply Task
submit_id env tool raw heavy durable m none = (m, err no_random)
submit_id env tool raw heavy durable m (some id) =
    submit_locked env (new_task id tool raw heavy durable env.now) m

abbrev submit_raw :
    Env → Text → Bool → Bool → Option Text → Manager → Option String → Manager × Reply Task
submit_raw env tool heavy durable id m none = (m, err bad_arguments)
submit_raw env tool heavy durable id m (some raw) = submit_id env tool raw heavy durable m id

unfoldable pub submit :
    Env → Text → Option String → Bool → Bool → Option Text → Manager → Manager × Reply Task
submit env tool raw heavy durable id m =
    if is_empty tool then (m, err tool_required) else submit_raw env tool heavy durable id m raw

unfoldable pub get : Text → Manager → Option Task
get id m = lookup id m.tasks

-- `cancel()` of a registered context.
abbrev stop_context : Text → Manager → Option (Unit {0}) → Manager
stop_context id m none = m
stop_context id m (some _) = record m { stopped = insert id tt m.stopped }

unfoldable pub cancel_task : Env → Text → Task → Manager → Manager × Reply Task
cancel_task env id task m =
    if terminal task
    then (m, ok task)
    else (let task' : Task = record task {
      status = cancelling;
      message = "正在取消";
      updated_at = env.now;
    } in
        let (saved, m') = persist_locked env task' (store id task' m) in
        if saved then (stop_context id m' (lookup id m.cancel), ok task') else (m', err not_saved))

abbrev pub cancel_found : Env → Text → Manager → Option Task → Manager × Reply Task
cancel_found env id m none = (m, err not_exist)
cancel_found env id m (some task) = cancel_task env id task m

unfoldable pub cancel : Env → Text → Manager → Manager × Reply Task
cancel env id m = cancel_found env id m (lookup id m.tasks)

unfoldable pub update_task : Env → Text → ℕ → String → Task → Manager → Manager × Reply Task
update_task env id progress message task m =
    if terminal task
    then (m, err terminal_task)
    else (let task' : Task = record task {
      progress = progress;
      message = message;
      updated_at = env.now;
    } in
        let (saved, m') = persist_locked env task' (store id task' m) in
        if saved then (m', ok task') else (m', err not_saved))

abbrev pub update_found : Env → Text → ℕ → String → Manager → Option Task → Manager × Reply Task
update_found env id progress message m none = (m, err not_exist)
update_found env id progress message m (some task) = update_task env id progress message task m

unfoldable pub update : Env → Text → ℕ → String → Manager → Manager × Reply Task
update env id progress message m =
    if float_lt_zero progress || float_gt_one progress
    then (m, err bad_progress)
    else update_found env id progress message m (lookup id m.tasks)

-- Wait up to its `select`: an answer at once, or the channel registered (`none`).
abbrev pub wait_found : Text → ℕ → Manager → Option Task → Manager × Option (Reply Task)
wait_found id channel m none = (m, some (err not_exist))
wait_found id channel m (some task) = if terminal task then (m, some (ok task)) else (
  record m { waiters = insert id (waiters_of (lookup id m.waiters) ++ channel ∷ []) m.waiters },
  none,
)

unfoldable pub wait : Text → ℕ → Manager → Manager × Option (Reply Task)
wait id channel m = wait_found id channel m (lookup id m.tasks)

abbrev wait_answer : Option Task → Reply Task
wait_answer none = err not_exist
wait_answer (some task) = ok task

-- After the `select`: the context is done, or the channel was closed and the task is read again.
unfoldable pub wait_end : Bool → Text → Manager → Reply Task
wait_end ctx_done id m = if ctx_done then err cancelled_wait else wait_answer (lookup id m.tasks)

-- closeOnce: the second call does nothing.
unfoldable pub close : Manager → Manager
close m = if m.closed then m else record m { closed = true; stopped = m.cancel ++ m.stopped }
