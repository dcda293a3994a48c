-- ===== src/Tasks/Lives.antt =====
-- The invariant of internal/tasks/manager.go that ties goroutines, waiters and tasks together: each
-- task has one worker at most, a worker's task has not ended, and neither has one that a client
-- waits for.

use zcr521_ai_mcp.Model.{Result}
use zcr521_ai_mcp.Tasks.Changes.{
  live, Ends, Keeps, complete_task-Ends, finish_cancelled_task-Ends, same-Keeps, begin_task-Keeps,
}
use zcr521_ai_mcp.Common.{
  Text, List, All, ◌∷◌, Option, Bool, String, ◌≡◌, text_eq, lookup, is_some, false, true, some,
  erase, refl, Bool-cases, inl, ltb, arith, inr, [], none, if◌then◌else◌,
}
use zcr521_ai_mcp.Tasks.Data.{Manager, Env, Task, is_cancelling}
use zcr521_ai_mcp.Tasks.System.{System}
use zcr521_ai_mcp.Tasks.Worker.{
  Worker, complete, finish_cancelled, run_phase, run, release, Phase, Choice, read_found,
  begin_found, complete_found, finish_cancelled_found, runs, stopping, waiting_total, reading,
  waiting_heavy, starting, slot, closing, stopped_message, executing,
}

abbrev pub Apart : Text → List Worker → Type 0
Apart id = All (λ v. text_eq id v.id ≡ false)

abbrev pub Distinct : List Worker → Type 0
Distinct [] = Unit {0}
Distinct (w ∷ ws) = Apart w.id ws × Distinct ws

abbrev pub LiveIn : Manager → Worker → Type 0
LiveIn m w = live (lookup w.id m.tasks) ≡ true

pub record Linked (s : System) : Type 0 where
  pub alive : All (LiveIn s.manager) s.workers
  pub distinct : Distinct s.workers
  pub awaited :
      (j : Text)
      → is_some (lookup j s.manager.waiters) ≡ true
      → live (lookup j s.manager.tasks) ≡ true

-- How a step of a worker leaves its manager.
abbrev pub Moves : Manager → Worker → Manager → Option Worker → Type 0
Moves m w m' none = Ends w.id m m'
Moves m w m' (some w') = Keeps m m' × (w'.id ≡ w.id)

read_found-Moves :
    (w : Worker) (m : Manager) (o : Option Task)
    → live o ≡ true
    → Moves m w (read_found w m o).0 (read_found w m o).1
read_found-Moves w m none h = cc
read_found-Moves w m (some task) h = elim (Bool-cases task.heavy) [
  | inl heavy ↦ rw heavy (same-Keeps m m refl refl refl, refl)
  | inr light ↦ rw light (same-Keeps m m refl refl refl, refl)
]

begin_found-Moves :
    (env : Env) (w : Worker) (m : Manager) (o : Option Task)
    → lookup w.id m.tasks ≡ o
    → live o ≡ true
    → Moves m w (begin_found env w m o).0 (begin_found env w m o).1
begin_found-Moves env w m none e h = cc
begin_found-Moves env w m (some task) e h = elim (Bool-cases (is_cancelling task.status)) [
  | inl stops ↦ rw stops (same-Keeps m m refl refl refl, refl)
  | inr goes ↦ rw goes (begin_task-Keeps env w.id task m e (ground arith), refl)
]

complete_found-Ends :
    (env : Env) (w : Worker) (was_cancelled : Bool) (result : Result) (m : Manager)
    (o : Option Task)
    → live o ≡ true
    → Ends w.id m (complete_found env w was_cancelled result m o)
complete_found-Ends env w was_cancelled result m none h = cc
complete_found-Ends env w was_cancelled result m (some task) h =
    complete_task-Ends env w.id was_cancelled result task m

finish_cancelled_found-Ends :
    (env : Env) (id : Text) (message : String) (m : Manager) (o : Option Task)
    → live o ≡ true
    → Ends id m (finish_cancelled_found env id message m o)
finish_cancelled_found-Ends env id message m none h = cc
finish_cancelled_found-Ends env id message m (some task) h =
    finish_cancelled_task-Ends env id message task m (ground arith)

-- Giving slots back and forgetting a context touch neither tasks nor waiters.
Ends-same :
    (id : Text) (m m' n n' : Manager)
    → n.tasks ≡ m.tasks
    → n.waiters ≡ m.waiters
    → n'.tasks ≡ m'.tasks
    → n'.waiters ≡ m'.waiters
    → n.woken ≡ m.woken
    → n'.woken ≡ m'.woken
    → Ends id n n'
    → Ends id m m'
Ends-same id m m' n n' e q e' q' u u' d = record {
  others = λ j apart. rw (← e, ← e') (d.others j apart);
  quiet = λ j apart. rw (← q, ← q') (d.quiet j apart);
  roused = rw (← q') d.roused;
  woke = rw (← q, ← u, ← u') d.woke;
}

complete-Ends :
    (env : Env) (w : Worker) (result : Result) (m : Manager)
    → live (lookup w.id m.tasks) ≡ true
    → Ends w.id m (release w (complete env w result m))
unfolding complete release
complete-Ends env w result m h =
    Ends-same w.id m _ (record m { cancel = erase w.id m.cancel }) _ refl refl refl refl refl refl
      (complete_found-Ends env w _ result _ (lookup w.id m.tasks) h)

finish_cancelled-Ends :
    (env : Env) (w : Worker) (message : String) (m : Manager)
    → live (lookup w.id m.tasks) ≡ true
    → Ends w.id m (release w (finish_cancelled env w.id message m))
unfolding finish_cancelled release
finish_cancelled-Ends env w message m h =
    Ends-same w.id m _ m _ refl refl refl refl refl refl
      (finish_cancelled_found-Ends env w.id message m (lookup w.id m.tasks) h)

if-Moves :
    (m : Manager) (w w' : Worker)
    → w'.id ≡ w.id
    → (b : Bool)
    → let r : Manager × Option Worker = if b then (m, some w') else (m, some w) in Moves m w r.0 r.1
if-Moves m w w' e true = (same-Keeps m m refl refl refl, e)
if-Moves m w w' e false = (same-Keeps m m refl refl refl, refl)

run_phase-Moves :
    (env : Env) (p : Phase) (c : Choice) (w : Worker) (m : Manager)
    → live (lookup w.id m.tasks) ≡ true
    → Moves m w (run_phase env p c w m).0 (run_phase env p c w m).1
unfolding run_phase
run_phase-Moves env waiting_total slot w m h = elim (Bool-cases (ltb m.total_sem m.total_limit)) [
  | inl free ↦ rw free (same-Keeps m _ refl refl refl, refl)
  | inr full ↦ rw full (same-Keeps m _ refl refl refl, refl)
]
run_phase-Moves env waiting_total closing w m h =
    if-Moves m w (record w { phase = stopping stopped_message }) refl m.closed
run_phase-Moves env reading slot w m h = read_found-Moves w m (lookup w.id m.tasks) h
run_phase-Moves env waiting_heavy slot w m h = elim (Bool-cases (ltb m.heavy_sem m.heavy_limit)) [
  | inl free ↦ rw free (same-Keeps m _ refl refl refl, refl)
  | inr full ↦ rw full (same-Keeps m _ refl refl refl, refl)
]
run_phase-Moves env waiting_heavy closing w m h =
    if-Moves m w (record w { phase = stopping stopped_message }) refl m.closed
run_phase-Moves env starting slot w m h = begin_found-Moves env w m (lookup w.id m.tasks) refl h
run_phase-Moves env executing (runs result) w m h = complete-Ends env w result m h
run_phase-Moves env (stopping message) slot w m h = finish_cancelled-Ends env w message m h
run_phase-Moves env _ _ w m h = (same-Keeps m m refl refl refl, refl)

pub run-Moves :
    (env : Env) (c : Choice) (w : Worker) (m : Manager)
    → live (lookup w.id m.tasks) ≡ true
    → Moves m w (run env c w m).0 (run env c w m).1
unfolding run
run-Moves env c w m h = run_phase-Moves env w.phase c w m h
