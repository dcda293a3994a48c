-- ===== src/Tasks/Slots.antt =====
-- internal/tasks/manager.go: only the sends and receives of `run` touch the semaphores; every other
-- critical section leaves both, and the limits, as they are.
use zcr521_ai_mcp.Common.{ℕ, ◌≡◌, Bool, Option, some, List, [], ◌∷◌, Text, String, Map, arith}
use zcr521_ai_mcp.Tasks.Data.{Task, Manager, Env, persist_locked, notify_locked, store}
use zcr521_ai_mcp.Tasks.Client.{submit_locked, submit, cancel_task, cancel, update_task, update}
use zcr521_ai_mcp.Tasks.Worker.{
  Worker, finish_cancelled_task, finish_cancelled, complete_task, complete,
}
use zcr521_ai_mcp.Tasks.Restart.{Entry, load_task, load, resume_task, resume_interrupted}
use zcr521_ai_mcp.Tasks.Loading.{load_keeps}

-- The semaphores of two managers.
pub record SameSlots (m m' : Manager) : Type 0 where
  pub same_total : m'.total_sem ≡ m.total_sem
  pub same_heavy : m'.heavy_sem ≡ m.heavy_sem
  pub same_total_limit : m'.total_limit ≡ m.total_limit
  pub same_heavy_limit : m'.heavy_limit ≡ m.heavy_limit

pub finish_cancelled-SameSlots :
    (env : Env) (id : Text) (message : _) (m : Manager)
    → SameSlots m (finish_cancelled env id message m)
unfolding finish_cancelled finish_cancelled_task persist_locked notify_locked store
finish_cancelled-SameSlots env id message m = ground arith

pub complete-SameSlots :
    (env : Env) (w : Worker) (result : _) (m : Manager) → SameSlots m (complete env w result m)
unfolding complete complete_task persist_locked notify_locked store
complete-SameSlots env w result m = ground arith

pub submit-SameSlots :
    (env : Env) (tool : Text) (raw : Option String) (heavy durable : Bool) (id : Option Text)
    (m : Manager)
    → SameSlots m (submit env tool raw heavy durable id m).0
unfolding submit submit_locked persist_locked store
submit-SameSlots env tool raw heavy durable id m = ground arith

pub cancel-SameSlots : (env : Env) (id : Text) (m : Manager) → SameSlots m (cancel env id m).0
unfolding cancel cancel_task persist_locked store
cancel-SameSlots env id m = ground arith

pub update-SameSlots :
    (env : Env) (id : Text) (progress : ℕ) (message : String) (m : Manager)
    → SameSlots m (update env id progress message m).0
unfolding update update_task persist_locked store
update-SameSlots env id progress message m = ground arith

persist_locked-SameSlots :
    (env : Env) (id : Text) (task : Task) (m : Manager)
    → SameSlots m (persist_locked env task (store id task m)).1
unfolding persist_locked store
persist_locked-SameSlots env id task m = ground arith

pub resume_interrupted-SameSlots :
    (env : Env) (ts : Map Task) (m : Manager) → SameSlots m (resume_interrupted env ts m).0
unfolding resume_interrupted
resume_interrupted-SameSlots env [] m = ground arith
resume_interrupted-SameSlots env ((id, task) ∷ rest) m =
    let task' = resume_task env.now task in
    let m' = (persist_locked env task' (store id task' m)).1 in
    ground (
      arith,
      persist_locked-SameSlots env id task' m,
      resume_interrupted-SameSlots env rest m,
      resume_interrupted-SameSlots env rest m',
    )

load_task-SameSlots :
    (env : Env) (task : Task) (m m' : Manager) → load_task env task m ≡ some m' → SameSlots m m'
unfolding load_task persist_locked store
load_task-SameSlots env task m m' e = ground arith

pub load-SameSlots :
    (env : Env) (es : List Entry) (m m' : Manager) → load env es m ≡ some m' → SameSlots m m'
load-SameSlots env es m m' e =
    load_keeps (SameSlots m) env
      (λ task u u' le k. ground (arith, load_task-SameSlots env task u u' le)) es m m' e
      (omega arith)
