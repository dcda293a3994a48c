-- ===== src/Ops/Limit.antt =====
-- The limit of active background tasks of internal/ops/tasks.go.
use zcr521_ai_mcp.Ops.Active.{if_active, active_one, count_active-insert-old}
use zcr521_ai_mcp.Ops.Runs.{GoPhase, BackgroundSystem, saving, starting, executing, on_state}
use zcr521_ai_mcp.Ops.Background.{
  BackgroundStatus, BackgroundTask, waiting, running, count_active, unknown, cancelled, timeout,
  completed, failed,
}
use zcr521_ai_mcp.Common.{
  Option, ℕ, Text, some, none, Unique, Map, lookup, ◌≡◌, insert, ◌≤◌, refl, Bool, if◌then◌else◌,
  arith, lookup-insert, insert-Unique, text_eq, true, false,
}

-- Which critical section of its goroutine an active task waits for.
pub data Due : Type 0 where
  first second : Due

abbrev pub due_status : BackgroundStatus → Option Due
due_status waiting = some first
due_status running = some second
due_status _ = none

abbrev pub due_task : Option BackgroundTask → Option Due
due_task none = none
due_task (some t) = due_status t.status

abbrev pub due_phase : Option GoPhase → Option Due
due_phase none = none
due_phase (some starting) = some first
due_phase (some executing) = some second
due_phase (some (saving t)) = none

-- The active tasks are within the limit, and are the ones whose goroutine has a critical section left,
-- the one that the status tells.
pub record Within (limit : ℕ) (s : BackgroundSystem) : Type 0 where
  pub unique : Unique s.background.tasks
  pub limited : s.background.task_limit ≡ limit
  pub bounded : count_active s.background.tasks ≤ limit
  pub agreed :
      (id : Text) → due_task (lookup id s.background.tasks) ≡ due_phase (lookup id s.goroutines)

pub if_active-due : (o : Option BackgroundTask) → due_task (if_active o) ≡ due_task o
if_active-due none = refl
if_active-due (some t) = of_status t.status
  where
    of_status :
        (st : BackgroundStatus)
        → due_task (if_active (some (record t { status = st }))) ≡ due_status st
    of_status waiting = refl
    of_status running = refl
    of_status cancelled = refl
    of_status timeout = refl
    of_status completed = refl
    of_status failed = refl
    of_status (unknown w) = refl

-- The map and the goroutines both take the new value at an id.
pub insert-agreed :
    (id : Text) (t : BackgroundTask) (p : GoPhase) (m : Map BackgroundTask) (g : Map GoPhase)
    → due_status t.status ≡ due_phase (some p)
    → ((k : Text) → due_task (lookup k m) ≡ due_phase (lookup k g))
    → (k : Text) → due_task (lookup k (insert id t m)) ≡ due_phase (lookup k (insert id p g))
insert-agreed id t p m g same agreed k =
    rw (lookup-insert id k t m, lookup-insert id k p g) (of_test (text_eq id k))
  where
    of_test :
        (b : Bool)
        → due_task (if b then some t else lookup k m) ≡ due_phase (if b then some p else lookup k g)
    of_test true = same
    of_test false = agreed k

-- A task that is active is replaced by one that may be or not.
pub on_state-Within :
    (limit : ℕ) (id : Text) (f : BackgroundTask → BackgroundTask) (next : BackgroundTask → GoPhase)
    (s : BackgroundSystem) (o : Option BackgroundTask)
    → lookup id s.background.tasks ≡ o
    → ((t : BackgroundTask) → o ≡ some t → active_one t ≡ 1)
    → ((t : BackgroundTask) → due_status (f t).status ≡ due_phase (some (next (f t))))
    → Within limit s
    → Within limit (on_state id f next s o)
on_state-Within limit id f next s none e active same w = w
on_state-Within limit id f next s (some t) e active same w = record {
  unique = insert-Unique id (f t) s.background.tasks w.unique;
  limited = w.limited;
  bounded =
      let one : active_one t ≡ 1 = active t refl in
      let most : active_one (f t) ≤ 1 = active_at_most (f t) in
      let moved = count_active-insert-old id (f t) t s.background.tasks e in
      let bound = w.bounded in omega arith;
  agreed = insert-agreed id (f t) (next (f t)) s.background.tasks s.goroutines (same t) w.agreed;
}
  where
    active_at_most : (t : BackgroundTask) → active_one t ≤ 1
    active_at_most t = ground arith
