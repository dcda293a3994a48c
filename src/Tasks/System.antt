-- ===== src/Tasks/System.antt =====
-- The task manager of internal/tasks/manager.go with its goroutines: a state is the manager and the
-- workers that have not returned, an action one critical section of a client or of a worker, in any
-- order. `Reach` has the states that a manager made by New gets to.
use zcr521_ai_mcp.Common.{
  ℕ, ◌≡◌, Bool, Option, none, some, List, [], ◌∷◌, Text, lookup, text_eq, String, if◌then◌else◌,
  map,
}
use zcr521_ai_mcp.Tasks.Data.{Task, Manager, Env}
use zcr521_ai_mcp.Tasks.Client.{Reply, ok, err, submit, cancel, update, wait, close}
use zcr521_ai_mcp.Tasks.Worker.{Worker, Choice, spawn, run}
use zcr521_ai_mcp.Tasks.Restart.{Entry, new, resume_interrupted}

pub record System : Type 0 where
  pub manager : Manager
  pub workers : List Worker

pub data Action : Type 0 where
  submits : Env → Text → Option String → Bool → Bool → Option Text → Action
  cancels : Env → Text → Action
  updates : Env → Text → ℕ → String → Action
  waits : Text → ℕ → Action
  closes : Action
  works : Env → Text → Choice → Action

-- The worker of a task, and the others.
abbrev pub behind : Worker → Option (Worker × List Worker) → Option (Worker × List Worker)
behind w none = none
behind w (some (v, vs)) = some (v, w ∷ vs)

unfoldable pub take_worker : Text → List Worker → Option (Worker × List Worker)
take_worker id [] = none
take_worker id (w ∷ ws) =
    let rest = behind w (take_worker id ws) in if text_eq w.id id then some (w, ws) else rest

abbrev pub back : Option Worker → List Worker → List Worker
back none ws = ws
back (some w) ws = w ∷ ws

-- `go m.run(id)` after a Submit that succeeded.
abbrev pub started : Reply Task → List Worker → List Worker
started (ok task) ws = spawn task.id ∷ ws
started (err _) ws = ws

abbrev pub work : Env → Choice → System → Option (Worker × List Worker) → System
work env choice s none = s
work env choice s (some (w, ws)) =
    let (m, w') = run env choice w s.manager in record { manager = m; workers = back w' ws }

unfoldable pub step : Action → System → System
step (submits env tool raw heavy durable id) s =
    let (m, reply) = submit env tool raw heavy durable id s.manager in
    record { manager = m; workers = started reply s.workers }
step (cancels env id) s = record s { manager = (cancel env id s.manager).0 }
step (updates env id progress message) s = record s {
  manager = (update env id progress message s.manager).0;
}
step (waits id channel) s = record s { manager = (wait id channel s.manager).0 }
step closes s = record s { manager = close s.manager }
step (works env id choice) s = work env choice s (take_worker id s.workers)

-- The ids that newID draws are new: a fact about crypto/rand.
abbrev pub IsFresh : Action → System → Type 0
IsFresh (submits env tool raw heavy durable (some id)) s = lookup id s.manager.tasks ≡ none
IsFresh _ s = Unit {0}

-- New and then ResumeInterrupted, as service.go starts the manager.
unfoldable pub boot : Env → Manager → System
boot env m =
    let (m', ids) = resume_interrupted env m.tasks m in
    record { manager = m'; workers = map spawn ids }

unfoldable pub steps : List Action → System → System
steps [] s = s
steps (a ∷ rest) s = steps rest (step a s)

pub data Reach : System → Type 0 where
  booted :
      (total_limit heavy_limit : ℕ) (made : Bool) (env env' : Env) (entries : List Entry)
      {m : Manager}
      → new total_limit heavy_limit made env entries ≡ some m
      → Reach (boot env' m)
  stepped : (a : Action) {s : System} → Reach s → IsFresh a s → Reach (step a s)
