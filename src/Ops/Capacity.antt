-- ===== src/Ops/Capacity.antt =====
-- The background tasks of internal/ops/tasks.go, whatever starts, ends and is asked.
use zcr521_ai_mcp.Ops.Bounded.{
  begin_at-Within, persist-Within, end_at-Within, save_at_end-Within, with_background-Within,
}
use zcr521_ai_mcp.Ops.Naming.{OpsRequest}
use mathlib.Core.Path.{subst, sym, ap}
use zcr521_ai_mcp.Ops.Active.{
  clear-Unique, count_active-clear, lookup-clear, count_active-insert-new,
}
use zcr521_ai_mcp.Ops.Limit.{Within, due_task, if_active-due, due_phase, insert-agreed}
use zcr521_ai_mcp.Ops.Background.{
  start_background, BackgroundEnv, Background, count_active, BackgroundTask, new_background,
}
use zcr521_ai_mcp.Ops.Runs.{
  BackgroundSystem, is_new, go_on, background_step, background_run, BackgroundMove, starts,
  new_background_system, begins, ends, starting, saves, controls,
}
use zcr521_ai_mcp.Ops.TaskControl.{
  clear, task_operation, TaskWords, on_task, on_id, found_or_loaded,
}
use zcr521_ai_mcp.Ops.Outcome.{Outcome, done, fail}
use zcr521_ai_mcp.Ops.Values.{Arg, ok, err, arg_string}
use zcr521_ai_mcp.Common.{
  is_some, [], ◌∷◌, ℕ, Bool, Text, ◌≡◌, true, ◌≤◌, lookup, none, Option-cases, inl, inr, ◌∙◌, not,
  arith, Bool-cases, List, leb, Option, refl, some, insert, if_both, ◌&&◌, insert-Unique, text_eq,
  codes,
}

module _ (limit : ℕ) where
  start-Within :
      (env : BackgroundEnv) (tool : Text) (s : BackgroundSystem)
      → is_new env.random_task_id s ≡ true
      → Within limit s
      → Within limit (go_on s env.random_task_id (start_background env tool s.background))
  unfolding start_background fail done
  start-Within env tool s new w = elim (Bool-cases env.makes_dirs) [
    | inr no_dirs ↦ rw no_dirs w
    | inl dirs ↦ elim (Bool-cases (leb s.background.task_limit (count_active s.background.tasks))) [
      | inl full ↦ rw (dirs, full) w
      | inr room ↦
          rw (dirs, room)
            (let t : BackgroundTask = new_background env tool in
              let id : Text = env.random_task_id in
              persist-Within limit env.writes t
                (record {
                  background = record s.background { tasks = insert id t s.background.tasks };
                  goroutines = insert id starting s.goroutines;
                })
                (record {
                  unique = insert-Unique id t s.background.tasks w.unique;
                  limited = w.limited;
                  bounded =
                      let count = count_active-insert-new id t s.background.tasks absent_task in
                      let same = w.limited in ground arith;
                  agreed =
                      insert-agreed id t starting s.background.tasks s.goroutines refl w.agreed;
                }))
    ]
  ]
    where
      absent_task : lookup env.random_task_id s.background.tasks ≡ none
      absent_task = elim (Option-cases (lookup env.random_task_id s.background.tasks)) [
        | inl none' ↦ none'
        | inr (t, found) ↦
            let no : not (is_some (lookup env.random_task_id s.background.tasks)) ≡ true =
              ground arith in
            ground arith
      ]

  -- What a control of tasks leaves.
  abbrev Left : BackgroundSystem → Background × Outcome → Type 0
  Left s r = Within limit (record s { background = r.0 })

  clear-Within :
      (removes : Bool) (s : BackgroundSystem)
      → Within limit s
      → Within limit (record s { background = (clear removes s.background).0 })
  unfolding clear
  clear-Within removes s w = record {
    unique = clear-Unique s.background.tasks w.unique;
    limited = w.limited;
    bounded = subst (λ n. n ≤ limit) (sym (count_active-clear s.background.tasks)) w.bounded;
    agreed = λ id.
        ap due_task (lookup-clear id s.background.tasks w.unique)
        ∙ if_active-due (lookup id s.background.tasks)
        ∙ w.agreed id;
  }

  control-Within :
      (words : TaskWords) (removes : Bool) (r : OpsRequest) (s : BackgroundSystem)
      → Within limit s
      → Within limit (record s { background = (task_operation words removes r s.background).0 })
  unfolding task_operation
  control-Within words removes r s w = if_both (Left s) (text_eq r.tool (codes "task_list")) w (
      if_both (Left s) (text_eq r.tool (codes "task_clear")) (clear-Within removes s w)
        (of_id (arg_string r.args (codes "taskId" ∷ codes "id" ∷ []))))
    where
      of_task :
          (id : Text) (o : Option BackgroundTask) → Left s (on_task words r.tool id s.background o)
      of_task id none = w
      of_task id (some t) =
          if_both (Left s) (t.has_cancel && text_eq r.tool (codes "task_cancel"))
            (with_background-Within limit s _ refl refl w) w

      of_id : (a : Arg Text) → Left s (on_id words r.tool s.background a)
      of_id (err e) = w
      of_id (ok id) = of_task id (found_or_loaded id s.background (lookup id s.background.tasks))

  step-Within :
      (m : BackgroundMove) (s : BackgroundSystem)
      → Within limit s
      → Within limit (background_step m s)
  unfolding background_step
  step-Within (starts env tool) s w = elim (Bool-cases (is_new env.random_task_id s)) [
    | inl new ↦ rw new (start-Within env tool s new w)
    | inr old ↦ rw old w
  ]
  step-Within (begins id now writes) s w =
      begin_at-Within limit id now writes s (lookup id s.goroutines) refl w
  step-Within (ends id now r) s w = end_at-Within limit id now r s (lookup id s.goroutines) refl w
  step-Within (saves id writes) s w =
      save_at_end-Within limit id writes s (lookup id s.goroutines) refl w
  step-Within (controls words removes r) s w = control-Within words removes r s w

  run-Within :
      (ms : List BackgroundMove) (s : BackgroundSystem)
      → Within limit s
      → Within limit (background_run ms s)
  unfolding background_run
  run-Within [] s w = w
  run-Within (m ∷ ms) s w = run-Within ms (background_step m s) (step-Within m s w)

-- Whatever requests start background tasks, under ids that are new, or control them, and in
-- whatever order the goroutines take their steps: the active tasks are never more than the limit,
-- and a task is waiting or running exactly while its goroutine has not reached its first or its
-- second critical section.
pub background_limit :
    (limit : ℕ) (ms : List BackgroundMove)
    → let s = background_run ms (new_background_system limit) in
      (count_active s.background.tasks ≤ limit)
      × ((id : Text) → due_task (lookup id s.background.tasks) ≡ due_phase (lookup id s.goroutines))
unfolding lookup count_active
background_limit limit ms =
    let w =
      run-Within limit ms (new_background_system limit)
        (record { unique = tt; limited = refl; bounded = omega arith; agreed = λ id. refl }) in
    (w.bounded, w.agreed)
