-- ===== src/Ops/TaskControl.antt =====
-- taskOperation of internal/ops/tasks.go and publicTaskOperation of internal/ops/runtime_ops.go. The
-- texts of errors are shortened.
use zcr521_ai_mcp.Ops.Values.{ArgError, Arg, err, ok, arg_string}
use zcr521_ai_mcp.Ops.Naming.{OpsRequest, action_of}
use zcr521_ai_mcp.Ops.Outcome.{Outcome, done, fail, invalid, unsupported}
use zcr521_ai_mcp.Ops.Background.{Background, BackgroundTask, load_task, is_active, task_file}
use zcr521_ai_mcp.Common.{
  [], ◌∷◌, List, String, Map, Bool, Text, erase, ℕ, Option, codes, if◌then◌else◌, some, length,
  none, text_eq, ◌&&◌, ◌||◌, insert, lookup,
}

-- What the operations on tasks answer with, before it is encoded.
pub data TaskPayload : Type 0 where
  views : List BackgroundTask → TaskPayload
  removed : ℕ → TaskPayload
  cancelling : Text → TaskPayload
  view output artifacts : BackgroundTask → TaskPayload

-- Its JSON, the words of an error, the order of the views, strings.ToLower.
pub record TaskWords : Type 0 where
  pub json : TaskPayload → String
  pub words : ArgError → String
  pub bad_action : Text → String
  pub newest_first : List BackgroundTask → List BackgroundTask
  pub lower : Text → Text

abbrev pub map_values {ℓ} : {A : Type ℓ} → Map A → List A
map_values [] = []
map_values ((k, v) ∷ m) = v ∷ map_values m

-- The tasks that stay, and the names of the files of the others.
unfoldable pub clear_tasks : Map BackgroundTask → Map BackgroundTask × List Text
clear_tasks [] = ([], [])
clear_tasks ((id, t) ∷ rest) =
    let (kept, files) = clear_tasks rest in
    if is_active t.status then ((id, t) ∷ kept, files) else (kept, task_file id ∷ files)

unfoldable pub erase_all {ℓ} : {A : Type ℓ} → List Text → Map A → Map A
erase_all [] m = m
erase_all (k ∷ ks) m = erase k (erase_all ks m)

-- `removes` is whether a file can be removed.
unfoldable pub clear : Bool → Background → Background × ℕ
clear removes b =
    let (kept, files) = clear_tasks b.tasks in
    (
      record b { tasks = kept; files = if removes then erase_all files b.files else b.files },
      length files,
    )

-- The task in the map, or else the one in its file.
abbrev pub found_or_loaded : Text → Background → Option BackgroundTask → Option BackgroundTask
found_or_loaded id b none = load_task id b
found_or_loaded id b (some t) = some t

module _ (w : TaskWords) where
  abbrev pub answer : TaskPayload → Outcome
  answer p = done (w.json p) "task_manager"

  abbrev pub read_task : Text → BackgroundTask → Outcome
  read_task tool t =
      if text_eq tool (codes "task_get") || text_eq tool (codes "task_status")
      then answer (view t)
      else if text_eq tool (codes "task_output")
      then answer (output t)
      else if text_eq tool (codes "task_artifacts")
      then answer (artifacts t)
      else if text_eq tool (codes "task_cancel")
      then fail "CONFLICT" "ended" "task_manager"
      else unsupported "task"

  abbrev pub on_task : Text → Text → Background → Option BackgroundTask → Background × Outcome
  on_task tool id b none = (b, fail "NOT_FOUND" "file does not exist" "task_manager")
  on_task tool id b (some t) =
      if t.has_cancel && text_eq tool (codes "task_cancel")
      then (record b { stopped = insert t.id tt b.stopped }, answer (cancelling id))
      else (b, read_task tool t)

  abbrev pub on_id : Text → Background → Arg Text → Background × Outcome
  on_id tool b (err e) = (b, invalid (w.words e))
  on_id tool b (ok id) = on_task tool id b (found_or_loaded id b (lookup id b.tasks))

  abbrev pub cleared : Background × ℕ → Background × Outcome
  cleared (b, n) = (b, answer (removed n))

  -- taskOperation
  unfoldable pub task_operation : Bool → OpsRequest → Background → Background × Outcome
  task_operation removes r b =
      if text_eq r.tool (codes "task_list")
      then (b, answer (views (w.newest_first (map_values b.tasks))))
      else if text_eq r.tool (codes "task_clear")
      then cleared (clear removes b)
      else on_id r.tool b (arg_string r.args (codes "taskId" ∷ codes "id" ∷ []))

  abbrev pub public_actions : Map Text
  public_actions =
      (codes "get", codes "task_get")
      ∷ (codes "status", codes "task_get")
      ∷ (codes "list", codes "task_list")
      ∷ (codes "cancel", codes "task_cancel")
      ∷ (codes "clear", codes "task_clear")
      ∷ (codes "output", codes "task_output")
      ∷ (codes "logs", codes "task_output")
      ∷ (codes "artifacts", codes "task_artifacts")
      ∷ []

  abbrev pub with_public_action :
      Bool → OpsRequest → Text → Background → Option Text → Background × Outcome
  with_public_action removes r action b (some tool) =
      task_operation removes (record r { tool = tool }) b
  with_public_action removes r action b none =
      if text_eq action (codes "update")
      then (b, unsupported "update")
      else (b, fail "INVALID_ARGUMENT" (w.bad_action action) "action_validation")

  abbrev pub with_action_of : Bool → OpsRequest → Background → Arg Text → Background × Outcome
  with_action_of removes r b (err e) = (b, invalid (w.words e))
  with_action_of removes r b (ok action) =
      with_public_action removes r action b (lookup action public_actions)

  unfoldable pub public_task_operation : Bool → OpsRequest → Background → Background × Outcome
  public_task_operation removes r b = with_action_of removes r b (action_of w.lower r (codes "get"))
