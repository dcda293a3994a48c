-- ===== src/Tasks/Heavy.antt =====
-- The heavy tasks of internal/tasks/manager.go: a worker that runs a task whose `heavy` is set has
-- marked itself when it read the task, and so holds a slot of the heavy semaphore.
use zcr521_ai_mcp.Tasks.Restart.{resume_interrupted}
use mathlib.Core.Path.{ap₂, ap}
use zcr521_ai_mcp.Tasks.Client.{Reply, wait, err, submit, ok}
use zcr521_ai_mcp.Tasks.Data.{Manager, Env, Task}
use zcr521_ai_mcp.Tasks.Worker.{
  Phase, run_phase, run, spawn, Worker, Choice, slots, waiting_heavy, starting, runs, executing,
  stopping, waiting_total, reading, slot, closing,
}
use zcr521_ai_mcp.Common.{
  Text, Option, List, ℕ, Bool, ◌≡◌, some, lookup, All, ◌∷◌, ◌≤◌, arith, none, true, All-zip, map,
  ◌&&◌, text_eq, [], ◌+◌, false, refl,
}
use zcr521_ai_mcp.Tasks.System.{
  step, boot, System, Action, Reach, IsFresh, work, started, submits, booted, cancels, stepped,
  back, updates, waits, works, closes,
}
use zcr521_ai_mcp.Tasks.Limits.{
  Placed, Reach-WithinLimits, running_total, running_heavy, executes, marked_bounded, IsPlaced,
}
use zcr521_ai_mcp.Tasks.Changes.{Keeps, is_heavy, live, cancel-Keeps, update-Keeps}
use zcr521_ai_mcp.Tasks.Finality.{submit-Keeps, close-Keeps, wait-tasks, Reach-Linked}
use zcr521_ai_mcp.Tasks.Lives.{LiveIn, Moves, run-Moves, Linked}
use zcr521_ai_mcp.Tasks.Links.{Split-All, Split-Distinct}
use zcr521_ai_mcp.Tasks.Workers.{Picked, take_worker-Picked}

-- The flag of a worker's task, in the map of the manager.
abbrev pub heavy_task : Manager → Worker → Bool
heavy_task m w = is_heavy (lookup w.id m.tasks)

-- Past its reading, a worker knows whether its task is heavy.
abbrev IsMarked : Phase → Manager → Worker → Type 0
IsMarked waiting_heavy m w = w.heavy ≡ heavy_task m w
IsMarked starting m w = w.heavy ≡ heavy_task m w
IsMarked executing m w = w.heavy ≡ heavy_task m w
IsMarked _ m w = Unit {0}

abbrev MarkedIn : Manager → Worker → Type 0
MarkedIn m w = IsMarked w.phase m w

MarkedIn-kept :
    (p : Phase) (m m' : Manager) (w : Worker)
    → heavy_task m' w ≡ heavy_task m w
    → IsMarked p m w
    → IsMarked p m' w
MarkedIn-kept p m m' w e k = ground arith

abbrev MarkedIn? : Manager → Option Worker → Type 0
MarkedIn? m none = Unit {0}
MarkedIn? m (some w) = MarkedIn m w

run_phase-MarkedIn :
    (env : Env) (p : Phase) (c : Choice) (w : Worker) (m : Manager)
    → p ≡ w.phase
    → IsPlaced p w
    → IsMarked p m w
    → MarkedIn? m (run_phase env p c w m).1
unfolding run_phase
run_phase-MarkedIn env waiting_total slot w m e p k = ground arith
run_phase-MarkedIn env waiting_total closing w m e p k = ground arith
run_phase-MarkedIn env reading slot w m e p k = ground arith
run_phase-MarkedIn env waiting_heavy slot w m e p k = ground arith
run_phase-MarkedIn env waiting_heavy closing w m e p k = ground arith
run_phase-MarkedIn env starting slot w m e p k = ground arith
run_phase-MarkedIn env executing (runs result) w m e p k = ground arith
run_phase-MarkedIn env (stopping message) slot w m e p k = ground arith
run_phase-MarkedIn env _ _ w m e p k = ground arith

back-MarkedIn :
    (m m' : Manager) (w : Worker) (w' : Option Worker) (rest : List Worker)
    → Moves m w m' w'
    → live (lookup w.id m.tasks) ≡ true
    → MarkedIn? m w'
    → All (λ x. text_eq w.id x.id ≡ false) rest
    → All (LiveIn m) rest
    → All (MarkedIn m) rest
    → All (MarkedIn m') (back w' rest)
back-MarkedIn m m' w none rest mv own k apart alive a =
    All-zip rest (λ x e q. MarkedIn-kept x.phase m m' x (rw (mv.others x.id e) refl) q) apart a
back-MarkedIn m m' w (some u) rest mv own k apart alive a = (
  MarkedIn-kept u.phase m m' u (mv.0.heavies u.id (rw mv.1 own)) k,
  All-zip rest (λ x l q. MarkedIn-kept x.phase m m' x (mv.0.heavies x.id l) q) alive a,
)

work-MarkedIn :
    (env : Env) (id : Text) (c : Choice) (s : System) (o : Option (Worker × List Worker))
    → Picked id s.workers o
    → Linked s
    → All Placed s.workers
    → All (MarkedIn s.manager) s.workers
    → let s' = work env c s o in All (MarkedIn s'.manager) s'.workers
unfolding run
work-MarkedIn env id c s none k v p a = a
work-MarkedIn env id c s (some (w, rest)) k v p a =
    let (own, alive) = Split-All (LiveIn s.manager) k.0 v.alive in
    let (marked, others) = Split-All (MarkedIn s.manager) k.0 a in
    back-MarkedIn s.manager _ w _ rest (run-Moves env c w s.manager own) own
      (run_phase-MarkedIn env w.phase c w s.manager refl (Split-All Placed k.0 p).0 marked)
      (Split-Distinct k.0 v.distinct).0 alive others

client-MarkedIn :
    (m m' : Manager) (ws : List Worker)
    → Keeps m m'
    → All (LiveIn m) ws
    → All (MarkedIn m) ws
    → All (MarkedIn m') ws
client-MarkedIn m m' ws k alive a =
    All-zip ws (λ x l q. MarkedIn-kept x.phase m m' x (k.heavies x.id l) q) alive a

started-MarkedIn :
    (m : Manager) (reply : Reply Task) (ws : List Worker)
    → All (MarkedIn m) ws
    → All (MarkedIn m) (started reply ws)
unfolding spawn
started-MarkedIn m (err e) ws a = a
started-MarkedIn m (ok task) ws a = (tt, a)

wait-MarkedIn :
    (id : Text) (channel : ℕ) (m : Manager) (ws : List Worker)
    → All (MarkedIn m) ws
    → All (MarkedIn (wait id channel m).0) ws
wait-MarkedIn id channel m ws a =
    All-zip ws
      (λ x q _.
        MarkedIn-kept x.phase m _ x (ap (λ ts. is_heavy (lookup x.id ts)) (wait-tasks id channel m))
          q)
      a a

step-MarkedIn :
    (a : Action) (s : System)
    → IsFresh a s
    → Linked s
    → All Placed s.workers
    → All (MarkedIn s.manager) s.workers
    → All (MarkedIn (step a s).manager) (step a s).workers
unfolding step
step-MarkedIn (submits env tool raw heavy durable id) s f v p a =
    started-MarkedIn _ (submit env tool raw heavy durable id s.manager).1 s.workers (
      client-MarkedIn s.manager _ s.workers (submit-Keeps env tool raw heavy durable id s f).0
        v.alive a)
step-MarkedIn (cancels env id) s f v p a =
    client-MarkedIn s.manager _ s.workers (cancel-Keeps env id s.manager) v.alive a
step-MarkedIn (updates env id progress message) s f v p a =
    client-MarkedIn s.manager _ s.workers (update-Keeps env id progress message s.manager) v.alive a
step-MarkedIn (waits id channel) s f v p a = wait-MarkedIn id channel s.manager s.workers a
step-MarkedIn closes s f v p a =
    client-MarkedIn s.manager _ s.workers (close-Keeps s.manager) v.alive a
step-MarkedIn (works env id c) s f v p a =
    work-MarkedIn env id c s _ (take_worker-Picked id s.workers) v p a

spawned-MarkedIn : (m : Manager) (ids : List Text) → All (MarkedIn m) (map spawn ids)
unfolding spawn
spawned-MarkedIn m [] = tt
spawned-MarkedIn m (id ∷ ids) = (tt, spawned-MarkedIn m ids)

Reach-MarkedIn : {s : System} → Reach s → All (MarkedIn s.manager) s.workers
unfolding boot
Reach-MarkedIn (booted total_limit heavy_limit made env env' es {m = m} e) =
    spawned-MarkedIn (resume_interrupted env' m.tasks m).0 (resume_interrupted env' m.tasks m).1
Reach-MarkedIn (stepped a r f) =
    step-MarkedIn a _ f (Reach-Linked r) (Reach-WithinLimits r).placed (Reach-MarkedIn r)

-- The workers whose runner runs a task that is heavy.
abbrev pub running_heavy_tasks : Manager → List Worker → ℕ
running_heavy_tasks m [] = 0
running_heavy_tasks m (w ∷ ws) =
    slots (executes w.phase && heavy_task m w) + running_heavy_tasks m ws

executes-MarkedIn :
    (p : Phase) (m : Manager) (w : Worker)
    → IsMarked p m w
    → slots (executes p && heavy_task m w) ≡ slots (executes p && w.heavy)
executes-MarkedIn p m w k = ground arith

running_heavy_tasks-marked :
    (m : Manager) (ws : List Worker)
    → All (MarkedIn m) ws
    → running_heavy_tasks m ws ≡ running_heavy ws
running_heavy_tasks-marked m [] a = refl
running_heavy_tasks-marked m (w ∷ ws) a =
    ap₂ ◌+◌ (executes-MarkedIn w.phase m w a.0) (running_heavy_tasks-marked m ws a.1)

-- In every state that the task manager reaches, by any interleaving of its clients and workers, at
-- most `total_limit` runners run at once, and at most `heavy_limit` of those whose task has its heavy
-- flag set in the map of the manager.
pub running_bounded :
    {s : System}
    → Reach s
    → (running_total s.workers ≤ s.manager.total_limit)
      × (running_heavy_tasks s.manager s.workers ≤ s.manager.heavy_limit)
running_bounded {s} r =
    let (total, heavy) = marked_bounded r in
    (total, rw (running_heavy_tasks-marked s.manager s.workers (Reach-MarkedIn r)) heavy)
