-- ===== src/Tasks/Boot.antt =====
-- internal/tasks/manager.go: the state in which New and ResumeInterrupted leave the manager has one
-- worker for each task that was resumed, whose task has not ended, and no waiter.

use zcr521_ai_mcp.Tasks.System.{boot}
use zcr521_ai_mcp.Tasks.Loading.{load_keeps}
use zcr521_ai_mcp.Tasks.Changes.{live}
use zcr521_ai_mcp.Tasks.Lives.{Distinct, Apart, LiveIn, Linked}
use zcr521_ai_mcp.Common.{
  Unique, ◌≡◌, ℕ, Map, lookup, [], some, Bool, Text, All, arith, List, none, map, insert-Unique,
  true, lookup-insert, refl, text_eq_refl, ◌∷◌, Bool-cases, text_eq, false, ◌∙◌, inl, inr,
  text_eq_sym,
}
use zcr521_ai_mcp.Tasks.Worker.{spawn}
use zcr521_ai_mcp.Tasks.Data.{Manager, persist_locked, store, new_manager, Env, Task}
use zcr521_ai_mcp.Tasks.Restart.{
  load_task, new, resume_interrupted, resume_task, Entry, interrupt, resumable,
}

abbrev pub Loaded : Manager → Type 0
Loaded m = Unique m.tasks × (m.waiters ≡ [])

load_task-Loaded :
    (env : Env) (task : Task) (m m' : Manager)
    → load_task env task m ≡ some m'
    → Loaded m
    → Loaded m'
unfolding load_task persist_locked store
load_task-Loaded env task m m' e l = ground (
  arith,
  insert-Unique task.id task m.tasks l.0,
  insert-Unique (interrupt env.now task).id (interrupt env.now task) m.tasks l.0,
)

pub new-Loaded :
    (total_limit heavy_limit : ℕ) (made : Bool) (env : Env) (es : List Entry) (m : Manager)
    → new total_limit heavy_limit made env es ≡ some m
    → Loaded m
unfolding new new_manager
new-Loaded total_limit heavy_limit made env es m e =
    load_keeps Loaded env (load_task-Loaded env) es (new_manager total_limit heavy_limit) m
      (ground arith) (tt, refl)

-- Replacing any task by one that has not ended.
resumed-alive :
    (env : Env) (id j : Text) (task : Task) (m : Manager)
    → live (lookup j m.tasks) ≡ true
    → live (
        lookup j
          (persist_locked env
            (resume_task env.now task)
            (store id (resume_task env.now task) m)).1.tasks)
      ≡ true
unfolding persist_locked store resume_task
resumed-alive env id j task m h =
    ground (arith, lookup-insert id j (resume_task env.now task) m.tasks)

resumed_self :
    (env : Env) (id : Text) (task : Task) (m : Manager)
    → live (
        lookup id
          (persist_locked env
            (resume_task env.now task)
            (store id (resume_task env.now task) m)).1.tasks)
      ≡ true
unfolding persist_locked store resume_task
resumed_self env id task m =
    ground (arith, lookup-insert id id (resume_task env.now task) m.tasks, text_eq_refl id)

resume-alive :
    (env : Env) (ts : Map Task) (m : Manager) (j : Text)
    → live (lookup j m.tasks) ≡ true
    → live (lookup j (resume_interrupted env ts m).0.tasks) ≡ true
unfolding resume_interrupted
resume-alive env [] m j h = h
resume-alive env ((id, task) ∷ ts) m j h = elim (Bool-cases (resumable task)) [
  | inl goes ↦ rw goes (resume-alive env ts _ j (resumed-alive env id j task m h))
  | inr stays ↦ rw stays (resume-alive env ts m j h)
]

resume-lives :
    (env : Env) (ts : Map Task) (m : Manager)
    → All
        (λ id. live (lookup id (resume_interrupted env ts m).0.tasks) ≡ true)
        (resume_interrupted env ts m).1
unfolding resume_interrupted
resume-lives env [] m = tt
resume-lives env ((id, task) ∷ ts) m = elim (Bool-cases (resumable task)) [
  | inl goes ↦
      rw goes (resume-alive env ts _ id (resumed_self env id task m), resume-lives env ts _)
  | inr stays ↦ rw stays (resume-lives env ts m)
]

saved-waiters :
    (env : Env) (id : Text) (task : Task) (m : Manager)
    → (persist_locked env
        (resume_task env.now task)
        (store id (resume_task env.now task) m)).1.waiters
      ≡ m.waiters
unfolding persist_locked store
saved-waiters env id task m = ground arith

resume-waiters :
    (env : Env) (ts : Map Task) (m : Manager) → (resume_interrupted env ts m).0.waiters ≡ m.waiters
unfolding resume_interrupted
resume-waiters env [] m = refl
resume-waiters env ((id, task) ∷ ts) m = elim (Bool-cases (resumable task)) [
  | inl goes ↦ rw goes (resume-waiters env ts _ ∙ saved-waiters env id task m)
  | inr stays ↦ rw stays (resume-waiters env ts m)
]

resume-Apart :
    (env : Env) (ts : Map Task) (m : Manager) (j : Text)
    → lookup j ts ≡ none
    → Apart j (map spawn (resume_interrupted env ts m).1)
unfolding resume_interrupted spawn lookup
resume-Apart env [] m j h = tt
resume-Apart env ((id, task) ∷ ts) m j h =
    let apart : text_eq id j ≡ false = ground arith in
    let absent : lookup j ts ≡ none = rw apart at h in
    elim (Bool-cases (resumable task)) [
      | inl goes ↦ rw goes (text_eq_sym j id ∙ apart, resume-Apart env ts _ j absent)
      | inr stays ↦ rw stays (resume-Apart env ts m j absent)
    ]

resume-Distinct :
    (env : Env) (ts : Map Task) (m : Manager)
    → Unique ts
    → Distinct (map spawn (resume_interrupted env ts m).1)
unfolding resume_interrupted spawn
resume-Distinct env [] m u = tt
resume-Distinct env ((id, task) ∷ ts) m u = elim (Bool-cases (resumable task)) [
  | inl goes ↦ rw goes (resume-Apart env ts _ id u.0, resume-Distinct env ts _ u.1)
  | inr stays ↦ rw stays (resume-Distinct env ts m u.1)
]

spawned-LiveIn :
    (m : Manager) (ids : List Text)
    → All (λ id. live (lookup id m.tasks) ≡ true) ids
    → All (LiveIn m) (map spawn ids)
unfolding spawn
spawned-LiveIn m [] a = tt
spawned-LiveIn m (id ∷ ids) a = (a.0, spawned-LiveIn m ids a.1)

pub boot-Linked : (env : Env) (m : Manager) → Loaded m → Linked (boot env m)
unfolding boot lookup
boot-Linked env m l =
    let quiet = resume-waiters env m.tasks m ∙ l.1 in
    record {
      alive = spawned-LiveIn (resume_interrupted env m.tasks m).0 _ (resume-lives env m.tasks m);
      distinct = resume-Distinct env m.tasks m l.0;
      awaited = λ j h. let none' = rw quiet at h in cc;
    }
