-- ===== src/Tasks/Worker.antt =====
-- The goroutine `run` of internal/tasks/manager.go. Its places between two critical sections are the
-- phases; `heavy` is its local variable, the last two fields are the slots that its deferred
-- functions give back. `none` for the worker means that it has returned.
use text.Mathlib.Text.{◌==◌ as str_eq}
use zcr521_ai_mcp.Common.{
  ℕ, ◌+◌, ◌-◌, Bool, true, false, ◌||◌, Option, none, some, Text, lookup, insert, erase, String,
  ltb, is_some, if◌then◌else◌,
}
use zcr521_ai_mcp.Model.{Result, failure}
use zcr521_ai_mcp.Tasks.Data.{
  Status, running, succeeded, failed, timed_out, cancelled, Task, Manager, Env, terminal,
  is_cancelling, persist_locked, notify_locked, store, one_bits,
}

pub data Phase : Type 0 where
  waiting_total reading waiting_heavy starting executing : Phase
  stopping : String → Phase

pub record Worker : Type 0 where
  pub id : Text
  pub phase : Phase
  pub heavy : Bool
  pub holds_total : Bool
  pub holds_heavy : Bool

unfoldable pub spawn : Text → Worker
spawn id = record {
  id = id;
  phase = waiting_total;
  heavy = false;
  holds_total = false;
  holds_heavy = false;
}

abbrev pub slots : Bool → ℕ
slots true = 1
slots false = 0

-- The deferred receives of `run`.
unfoldable pub release : Worker → Manager → Manager
release w m = record m {
  total_sem = m.total_sem - slots w.holds_total;
  heavy_sem = m.heavy_sem - slots w.holds_heavy;
}

abbrev pub stopped_message : String
stopped_message = "服务正在停止"

abbrev pub before_start_message : String
before_start_message = "任务在启动前取消"

unfoldable pub finish_cancelled_task : Env → Text → String → Task → Manager → Manager
finish_cancelled_task env id message task m =
    if terminal task
    then m
    else (let task' : Task = record task {
      status = cancelled;
      message = message;
      updated_at = env.now;
      completed_at = env.now;
      result = some (failure "CANCELLED" message "Cancelled" message);
    } in
        notify_locked id (persist_locked env task' (store id task' m)).1)

abbrev pub finish_cancelled_found : Env → Text → String → Manager → Option Task → Manager
finish_cancelled_found env id message m none = m
finish_cancelled_found env id message m (some task) = finish_cancelled_task env id message task m

unfoldable pub finish_cancelled : Env → Text → String → Manager → Manager
finish_cancelled env id message m = finish_cancelled_found env id message m (lookup id m.tasks)

-- The switch at the end of `run`: the last status, progress and message of a task.
abbrev set_outcome : Status → ℕ → String → Task → Task
set_outcome status progress message task = record task {
  status = status;
  progress = progress;
  message = message;
}

unfoldable pub conclude : Bool → Result → Task → Task
conclude was_cancelled result task =
    if is_cancelling task.status || was_cancelled
    then set_outcome cancelled task.progress "已取消" task
    else if result.success
    then set_outcome succeeded one_bits result.message task
    else if str_eq result.code "TIMEOUT"
    then set_outcome timed_out task.progress result.message task
    else set_outcome failed task.progress result.message task

unfoldable pub begin_task : Env → Text → Task → Manager → Manager
begin_task env id task m =
    let task' : Task = record task {
      status = running;
      message = "正在执行";
      started_at = env.now;
      updated_at = env.now;
    } in
    let m' : Manager = record m { cancel = insert id tt m.cancel } in
    (persist_locked env task' (store id task' m')).1

unfoldable pub complete_task : Env → Text → Bool → Result → Task → Manager → Manager
complete_task env id was_cancelled result task m =
    let task' : Task =
      conclude was_cancelled result
        (record task { updated_at = env.now; completed_at = env.now; result = some result }) in
    notify_locked id (persist_locked env task' (store id task' m)).1

-- A branch of a `select` that is taken, or what the runner returned.
pub data Choice : Type 0 where
  slot closing : Choice
  runs : Result → Choice

abbrev pub begin_found : Env → Worker → Manager → Option Task → Manager × Option Worker
begin_found env w m none = (release w m, none)
begin_found env w m (some task) =
    if is_cancelling task.status
    then (m, some (record w { phase = stopping before_start_message }))
    else (begin_task env w.id task m, some (record w { phase = executing }))

abbrev pub read_found : Worker → Manager → Option Task → Manager × Option Worker
read_found w m none = (release w m, none)
read_found w m (some task) =
    if task.heavy
    then (m, some (record w { heavy = true; phase = waiting_heavy }))
    else (m, some (record w { phase = starting }))

abbrev pub complete_found : Env → Worker → Bool → Result → Manager → Option Task → Manager
complete_found env w was_cancelled result m none = m
complete_found env w was_cancelled result m (some task) =
    complete_task env w.id was_cancelled result task m

unfoldable pub complete : Env → Worker → Result → Manager → Manager
complete env w result m =
    let m' : Manager = record m { cancel = erase w.id m.cancel } in
    complete_found env w (is_some (lookup w.id m.stopped)) result m' (lookup w.id m.tasks)

-- One step of the worker. A choice that its place does not offer, a full semaphore and a channel
-- `closed` that is still open leave it where it is.
unfoldable pub run_phase : Env → Phase → Choice → Worker → Manager → Manager × Option Worker
run_phase env waiting_total slot w m =
    if ltb m.total_sem m.total_limit
    then (
      record m { total_sem = m.total_sem + 1 },
      some (record w { phase = reading; holds_total = true }),
    )
    else (m, some w)
run_phase env waiting_total closing w m =
    if m.closed then (m, some (record w { phase = stopping stopped_message })) else (m, some w)
run_phase env reading slot w m = read_found w m (lookup w.id m.tasks)
run_phase env waiting_heavy slot w m =
    if ltb m.heavy_sem m.heavy_limit
    then (
      record m { heavy_sem = m.heavy_sem + 1 },
      some (record w { phase = starting; holds_heavy = true }),
    )
    else (m, some w)
run_phase env waiting_heavy closing w m =
    if m.closed then (m, some (record w { phase = stopping stopped_message })) else (m, some w)
run_phase env starting slot w m = begin_found env w m (lookup w.id m.tasks)
run_phase env executing (runs result) w m = (release w (complete env w result m), none)
run_phase env (stopping message) slot w m = (release w (finish_cancelled env w.id message m), none)
run_phase env _ _ w m = (m, some w)

unfoldable pub run : Env → Choice → Worker → Manager → Manager × Option Worker
unfolding run_phase
run env choice w m = run_phase env w.phase choice w m
