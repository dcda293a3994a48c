-- ===== src/Ops/Background.antt =====
-- The background tasks of internal/ops/tasks.go. A task's file is the view that it holds, or
-- nothing that can be decoded; the context of a task is known by the task's id. The texts of errors
-- are shortened.
use text.Mathlib.Text.{◌==◌ as str_eq}
use zcr521_ai_mcp.Ops.Outcome.{Outcome, fail, done}
use zcr521_ai_mcp.Common.{
  [], ◌∷◌, Text, Map, ℕ, Bool, Option, true, if◌then◌else◌, leb, ◌++◌, false, ◌+◌, ◌&&◌, codes,
  insert, some, not, ◌||◌, lookup, ◌==◌, none,
}

pub data BackgroundStatus : Type 0 where
  waiting running cancelled timeout completed failed : BackgroundStatus
  unknown : Text → BackgroundStatus

-- taskState; `has_cancel` is whether it has a CancelFunc, which a task read from a file has not.
pub record BackgroundTask : Type 0 where
  pub id : Text
  pub tool : Text
  pub status : BackgroundStatus
  pub created_at : ℕ
  pub started_at : ℕ
  pub completed_at : ℕ
  pub progress : ℕ
  pub result : Outcome
  pub has_cancel : Bool

-- The tasks of a Manager, their files and the contexts that were cancelled.
pub record Background : Type 0 where
  pub tasks : Map BackgroundTask
  pub files : Map (Option BackgroundTask)
  pub stopped : Map (Unit {0})
  pub task_limit : ℕ

-- What a call finds: its time, a random id, whether the directories can be made and files be written.
pub record BackgroundEnv : Type 0 where
  pub now : ℕ
  pub random_task_id : Text
  pub makes_dirs : Bool
  pub writes : Bool

abbrev pub is_active : BackgroundStatus → Bool
is_active waiting = true
is_active running = true
is_active _ = false

unfoldable pub count_active : Map BackgroundTask → ℕ
count_active [] = 0
count_active ((id, t) ∷ rest) = (if is_active t.status then 1 else 0) + count_active rest

abbrev pub is_path_byte : ℕ → Bool
is_path_byte c =
    (leb b'a' c && leb c b'z')
    || (leb b'0' c && leb c b'9')
    || (leb b'A' c && leb c b'Z')
    || c == b'-'

unfoldable pub path_bytes : Text → Text
path_bytes [] = []
path_bytes (c ∷ id) = let rest = path_bytes id in if is_path_byte c then c ∷ rest else rest

-- The name that taskPath makes of an id, which drops every other byte.
unfoldable pub task_file : Text → Text
task_file id = path_bytes id ++ codes ".json"

-- persistTask of what snapshotTask takes of a task.
unfoldable pub persist_task : Bool → BackgroundTask → Background → Background
persist_task writes t b =
    if writes
    then record b {
      files = insert (task_file t.id) (some (record t { has_cancel = false })) b.files;
    }
    else b

unfoldable pub load_task : Text → Background → Option BackgroundTask
load_task id b = or_none (lookup (task_file id) b.files)
  where
    or_none : Option (Option BackgroundTask) → Option BackgroundTask
    or_none none = none
    or_none (some t) = t

abbrev pub pending : Outcome
pending = fail "PENDING" "" ""

abbrev pub new_background : BackgroundEnv → Text → BackgroundTask
new_background env tool = record {
  id = env.random_task_id;
  tool = tool;
  status = waiting;
  created_at = env.now;
  started_at = 0;
  completed_at = 0;
  progress = 0;
  result = pending;
  has_cancel = true;
}

abbrev pub accepted : Text → Outcome
accepted id = record (done "{\"status\":\"waiting\"}" "detached_task") {
  code = "ACCEPTED";
  task_id = id;
}

-- startBackground up to the start of the goroutine.
unfoldable pub start_background : BackgroundEnv → Text → Background → Background × Outcome
start_background env tool b =
    if not env.makes_dirs
    then (b, fail "IO_ERROR" "mkdir" "task_manager")
    else if leb b.task_limit (count_active b.tasks)
    then (b, fail "RESOURCE_LIMIT" "too many active tasks" "task_manager")
    else (let t = new_background env tool in
        (persist_task env.writes t (record b { tasks = insert t.id t b.tasks }), accepted t.id))

-- The two critical sections of the goroutine, on its task. The second is given what Execute made of
-- the request, and whether the context was cancelled.
abbrev pub begun : ℕ → BackgroundTask → BackgroundTask
begun now t = record t { status = running; started_at = now; progress = 0x3f847ae147ae147b }

abbrev pub end_status : Bool → Outcome → BackgroundStatus
end_status stopped r =
    if stopped
    then cancelled
    else if str_eq r.code "TIMEOUT"
    then timeout
    else if r.success
    then completed
    else failed

abbrev pub end_result : Bool → Outcome → Outcome
end_result stopped r = if stopped then record r { success = false; code = "CANCELLED" } else r

abbrev pub ended : ℕ → Bool → Outcome → BackgroundTask → BackgroundTask
ended now stopped r t = record t {
  status = end_status stopped r;
  result = end_result stopped r;
  completed_at = now;
  progress = 0x3ff0000000000000;
}
