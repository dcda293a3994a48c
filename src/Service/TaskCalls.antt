-- ===== src/Service/TaskCalls.antt =====
-- The methods of internal/service/service.go for tasks, taskCall and readFileTail.
use zcr521_ai_mcp.Mcp.Json.{or_empty, as_text}
use zcr521_ai_mcp.Ops.TaskControl.{map_values}
use zcr521_ai_mcp.Tasks.Client.{Reply, get, ok, err, cancel, update}
use zcr521_ai_mcp.Model.{Result, success, failure}
use zcr521_ai_mcp.Service.Data.{
  Service, ServiceEnv, ServiceError, Payload, LogTail, one_task, no_task, of_tasks, no_log,
  task_id_required, log_of, all_tasks, bad_action,
}
use zcr521_ai_mcp.Tasks.Data.{Task, Manager, inf_bits}
use zcr521_ai_mcp.Ops.Values.{Value}
use zcr521_ai_mcp.Common.{
  Text, Option, ℕ, List, ℤ, some, Map, pos, Bool, if◌then◌else◌, none, codes, is_empty, suc, ltb,
  ◌&&◌, ◌++◌, text_eq, length, leb, int_lt, ◌-◌, lookup, take, drop,
}

-- readFileTail of a file that can be read.
unfoldable pub read_file_tail : Text → ℤ → LogTail
read_file_tail file limit =
    let start = length file - bytes limit in
    record { raw = take (bytes limit) (drop start file); start = start; total_size = length file }
  where
    bytes : ℤ → ℕ
    bytes (pos (suc n)) = suc n
    bytes _ = 1048576

-- A data type for the pair of a value and an error.
pub data Told : Type 0 where
  told : Payload → Told
  refused : ServiceError → Told

abbrev pub told_task : Option Task → Told
told_task none = refused no_task
told_task (some t) = told (one_task t)

-- A float64 that is greater than 0.
abbrev pub is_positive : ℕ → Bool
is_positive bits = ltb 0 bits && leb bits inf_bits

module _ {σ : Type 0} (env : ServiceEnv σ) where
  abbrev pub of_reply : Service σ → Manager × Reply Task → Service σ × Told
  of_reply s (m, ok t) = (record s { tasks = m }, told (one_task t))
  of_reply s (m, err e) = (record s { tasks = m }, refused (of_tasks e))

  unfoldable pub task_get : Text → Service σ → Told
  task_get id s = if is_empty id then refused task_id_required else told_task (get id s.tasks)

  abbrev pub task_list : Service σ → List Task
  task_list s = env.newest_first (map_values s.tasks.tasks)

  unfoldable pub task_cancel : Text → Service σ → Service σ × Told
  task_cancel id s = of_reply s (cancel env.task_env id s.tasks)

  unfoldable pub task_update : Text → ℕ → Text → Service σ → Service σ × Told
  task_update id progress message s =
      of_reply s (update env.task_env id progress (env.text_bytes message) s.tasks)

  abbrev pub number_of : Option Value → Option ℕ
  number_of none = none
  number_of (some v) = env.number v

  abbrev pub or_zero : Option ℕ → ℕ
  or_zero none = 0
  or_zero (some bits) = bits

  -- The limit of a preview, or a smaller one that is asked for.
  abbrev pub log_limit : ℤ → Option ℕ → ℤ
  log_limit limit none = limit
  log_limit limit (some bits) =
      if is_positive bits && int_lt (env.to_int64 bits) limit then env.to_int64 bits else limit

  abbrev pub log_path : Text → Service σ → Text
  log_path id s =
      env.join (env.join s.config.paths.state_dir (codes "tasks")) (id ++ codes ".jsonl")

  abbrev pub tail_of : Text → ℤ → Option Text → Told
  tail_of id limit none = refused no_log
  tail_of id limit (some file) = told (log_of id (read_file_tail file limit))

  unfoldable pub task_logs : Text → Option Value → Service σ → Told
  task_logs id limit s =
      if is_empty id
      then refused task_id_required
      else tail_of id (log_limit s.config.limits.result_preview_bytes (number_of limit))
          (env.log_file (log_path id s))

  abbrev pub task_result_of : Service σ × Told → Service σ × Result
  task_result_of (s, refused e) = (s, failure "TASK_FAILED" "" "TaskError" (env.words e))
  task_result_of (s, told p) =
      (s, record (success "OK" "" (some (env.json p))) { strategy = "durable_task" })

  abbrev pub told_of : Text → Text → Map Value → Service σ → Service σ × Told
  told_of action id args s =
      if text_eq action (codes "get")
      then (s, task_get id s)
      else if text_eq action (codes "list")
      then (s, told (all_tasks (task_list s)))
      else if text_eq action (codes "cancel")
      then task_cancel id s
      else if text_eq action (codes "update")
      then task_update id (or_zero (number_of (lookup (codes "progress") args)))
          (or_empty (as_text (lookup (codes "message") args))) s
      else if text_eq action (codes "logs")
      then (s, task_logs id (lookup (codes "limit") args) s)
      else (s, refused bad_action)

  -- taskCall
  unfoldable pub task_call : Map Value → Service σ → Service σ × Result
  task_call args s = task_result_of (
      told_of (or_empty (as_text (lookup (codes "action") args)))
        (or_empty (as_text (lookup (codes "taskId") args))) args s)
