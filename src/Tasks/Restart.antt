-- ===== src/Tasks/Restart.antt =====
-- `load` and `ResumeInterrupted` of internal/tasks/manager.go: what a new process makes of the
-- snapshots that the last one left.
use zcr521_ai_mcp.Common.{
  ℕ, Bool, true, false, ◌&&◌, ◌||◌, Option, none, some, List, [], ◌∷◌, Text, Map, String, is_empty,
  ltb, if◌then◌else◌, and_then,
}
use zcr521_ai_mcp.Model.{failure}
use zcr521_ai_mcp.Tasks.Data.{
  Status, queued, running, cancelling, failed, interrupted, Task, Manager, Env, persist_locked,
  store, new_manager,
}

-- An entry of the task directory: one that is skipped for its kind or name, a file that cannot be
-- read, one that is no task and whose renaming succeeds or not, or a task.
pub data Entry : Type 0 where
  skipped unreadable : Entry
  corrupt : Bool → Entry
  snapshot : Task → Entry

abbrev pub is_unfinished : Status → Bool
is_unfinished running = true
is_unfinished cancelling = true
is_unfinished queued = true
is_unfinished _ = false

abbrev pub is_interrupted : Status → Bool
is_interrupted interrupted = true
is_interrupted _ = false

unfoldable pub interrupt : ℕ → Task → Task
interrupt now task =
    let message : String = "上次进程退出时任务尚未完成" in
    if task.durable
    then record task { status = interrupted; message = message; updated_at = now }
    else record task {
      status = failed;
      message = message;
      updated_at = now;
      completed_at = now;
      result = some (failure "PROCESS_RESTARTED" message "Interrupted" message);
    }

-- `none` is an error of `load`.
unfoldable pub load_task : Env → Task → Manager → Option Manager
load_task env task m =
    if is_empty task.id || is_empty task.tool
    then some m
    else if is_unfinished task.status
    then (let task' = interrupt env.now task in
        let (saved, m') = persist_locked env task' m in
        if saved then some (store task'.id task' m') else none)
    else some (store task.id task m)

unfoldable pub load_entry : Env → Entry → Manager → Option Manager
load_entry env skipped m = some m
load_entry env unreadable m = none
load_entry env (corrupt renamed) m = if renamed then some m else none
load_entry env (snapshot task) m = load_task env task m

unfoldable pub load : Env → List Entry → Manager → Option Manager
load env [] m = some m
load env (e ∷ es) m = and_then (load_entry env e m) (load env es)

unfoldable pub resumable : Task → Bool
resumable task = is_interrupted task.status && task.durable

unfoldable pub resume_task : ℕ → Task → Task
resume_task now task = record task { status = queued; message = "服务重启后恢复执行"; updated_at = now }

-- The loop of ResumeInterrupted over the map, in the order that it is given; the second part is
-- `ids`, for each of which a worker is started.
unfoldable pub resume_interrupted : Env → Map Task → Manager → Manager × List Text
resume_interrupted env [] m = (m, [])
resume_interrupted env ((id, task) ∷ rest) m =
    let task' = resume_task env.now task in
    let m' : Manager =
      if resumable task then (persist_locked env task' (store id task' m)).1 else m in
    let (last, ids) = resume_interrupted env rest m' in
    (last, if resumable task then id ∷ ids else ids)

-- New: the limits' test, MkdirAll, and `load`. A negative limit counts as 0.
unfoldable pub new : ℕ → ℕ → Bool → Env → List Entry → Option Manager
new total_limit heavy_limit made env entries =
    if ltb total_limit 1 || ltb heavy_limit 1 || ltb total_limit heavy_limit
    then none
    else if made
    then load env entries (new_manager total_limit heavy_limit)
    else none
