-- ===== src/Ops/Runs.antt =====
-- The goroutines of internal/ops/tasks.go as a transition system. The random ids of tasks are new ones;
-- other calls come in between at any time.
use zcr521_ai_mcp.Ops.Naming.{OpsRequest}
use zcr521_ai_mcp.Ops.TaskControl.{TaskWords, task_operation}
use zcr521_ai_mcp.Ops.Outcome.{Outcome}
use zcr521_ai_mcp.Ops.Background.{
  BackgroundTask, Background, BackgroundEnv, start_background, persist_task, ended, begun,
}
use zcr521_ai_mcp.Common.{
  [], ◌∷◌, Text, if◌then◌else◌, List, ℕ, Map, Bool, Option, not, insert, some, lookup, is_some,
  none, ◌&&◌, erase,
}

-- Where the goroutine of a task is: before its first critical section, in Execute, or before its last
-- write, with the task as it is.
pub data GoPhase : Type 0 where
  starting executing : GoPhase
  saving : BackgroundTask → GoPhase

pub record BackgroundSystem : Type 0 where
  pub background : Background
  pub goroutines : Map GoPhase

pub data BackgroundMove : Type 0 where
  starts : BackgroundEnv → Text → BackgroundMove
  begins : Text → ℕ → Bool → BackgroundMove
  ends : Text → ℕ → Outcome → BackgroundMove
  saves : Text → Bool → BackgroundMove
  controls : TaskWords → Bool → OpsRequest → BackgroundMove

-- An id that no task in the map has and no goroutine.
abbrev pub is_new : Text → BackgroundSystem → Bool
is_new id s = not (is_some (lookup id s.background.tasks)) && not (is_some (lookup id s.goroutines))

abbrev pub go_on : BackgroundSystem → Text → Background × Outcome → BackgroundSystem
go_on s id (b, o) = record s {
  background = b;
  goroutines = if o.success then insert id starting s.goroutines else s.goroutines;
}

-- A critical section on the task, which the map holds, and the place where the goroutine is after it.
abbrev pub on_state :
    Text
    → (BackgroundTask → BackgroundTask)
    → (BackgroundTask → GoPhase)
    → BackgroundSystem
    → Option BackgroundTask
    → BackgroundSystem
on_state id f next s none = s
on_state id f next s (some t) = record s {
  background = record s.background { tasks = insert id (f t) s.background.tasks };
  goroutines = insert id (next (f t)) s.goroutines;
}

abbrev pub begin_at : Text → ℕ → Bool → BackgroundSystem → Option GoPhase → BackgroundSystem
begin_at id now writes s (some starting) =
    persisted (on_state id (begun now) (λ t. executing) s (lookup id s.background.tasks))
  where
    persisted : BackgroundSystem → BackgroundSystem
    persisted s' = of_task (lookup id s'.background.tasks)
      where
        of_task : Option BackgroundTask → BackgroundSystem
        of_task none = s'
        of_task (some t) = record s' { background = persist_task writes t s'.background }
begin_at id now writes s _ = s

abbrev pub end_at : Text → ℕ → Outcome → BackgroundSystem → Option GoPhase → BackgroundSystem
end_at id now r s (some executing) =
    on_state id (ended now (is_some (lookup id s.background.stopped)) r) (λ t. saving t) s
      (lookup id s.background.tasks)
end_at id now r s _ = s

abbrev pub save_at_end : Text → Bool → BackgroundSystem → Option GoPhase → BackgroundSystem
save_at_end id writes s (some (saving t)) = record s {
  background = persist_task writes t s.background;
  goroutines = erase id s.goroutines;
}
save_at_end id writes s _ = s

unfoldable pub background_step : BackgroundMove → BackgroundSystem → BackgroundSystem
background_step (starts env tool) s =
    if is_new env.random_task_id s
    then go_on s env.random_task_id (start_background env tool s.background)
    else s
background_step (begins id now writes) s = begin_at id now writes s (lookup id s.goroutines)
background_step (ends id now r) s = end_at id now r s (lookup id s.goroutines)
background_step (saves id writes) s = save_at_end id writes s (lookup id s.goroutines)
background_step (controls w removes r) s = record s {
  background = (task_operation w removes r s.background).0;
}

unfoldable pub background_run : List BackgroundMove → BackgroundSystem → BackgroundSystem
background_run [] s = s
background_run (m ∷ ms) s = background_run ms (background_step m s)

-- A Manager that has just been made.
abbrev pub new_background_system : ℕ → BackgroundSystem
new_background_system limit = record {
  background = record { tasks = []; files = []; stopped = []; task_limit = limit };
  goroutines = [];
}
