-- ===== src/Examples/Ops.antt =====
-- Two background tasks (internal/ops/tasks.go), of which the limit lets in one.
use zcr521_ai_mcp.Ops.Capacity.{background_limit}
use zcr521_ai_mcp.Ops.Limit.{due_task, due_phase}
use zcr521_ai_mcp.Ops.Background.{BackgroundEnv, count_active}
use zcr521_ai_mcp.Ops.Runs.{background_run, BackgroundMove, new_background_system, starts, begins}
use zcr521_ai_mcp.Common.{[], ◌∷◌, List, codes, true, ◌≤◌, Text, lookup, ◌≡◌}

abbrev at_start : BackgroundEnv
at_start = record { now = 1; random_task_id = codes "a"; makes_dirs = true; writes = true }

abbrev moves : List BackgroundMove
moves =
    starts at_start (codes "zcr521_shell")
    ∷ starts (record at_start { random_task_id = codes "b" }) (codes "zcr521_shell")
    ∷ begins (codes "a") 2 true
    ∷ []

background_limit_example :
    let s = background_run moves (new_background_system 1) in
    (count_active s.background.tasks ≤ 1)
    × ((id : Text) → due_task (lookup id s.background.tasks) ≡ due_phase (lookup id s.goroutines))
background_limit_example = background_limit 1 moves
