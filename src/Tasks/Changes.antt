-- ===== src/Tasks/Changes.antt =====
-- What one critical section of internal/tasks/manager.go does to the tasks and to the waiters:
-- clients keep every task that has not ended and every task that has; a worker that returns ends
-- its own task and wakes that task's waiters.

-- Whether a task is there and has not ended.
use zcr521_ai_mcp.Model.{Result, failure}
use zcr521_ai_mcp.Tasks.Client.{
  cancel_task, update_task, update, submit_locked, cancel_found, update_found, cancel,
}
use zcr521_ai_mcp.Tasks.Worker.{begin_task, complete_task, finish_cancelled_task, conclude}
use zcr521_ai_mcp.Common.{
  Option, Text, lookup, text_eq, Bool, ◌≡◌, false, true, some, not, none, insert, lookup-insert,
  arith, text_eq_iff, ◌⊎◌, if◌then◌else◌, erase, lookup-erase, ℕ, text_eq_refl, String, Bool-cases,
  ◌||◌, inl, refl, inr, ◌++◌, ◌∙◌, ap, sym,
}
use zcr521_ai_mcp.Tasks.Data.{
  Manager, Task, is_terminal, persist_locked, Env, store, running, notify_locked, cancelled,
  float_lt_zero, float_gt_one, terminal, cancelling, waiters_of,
}

abbrev pub live : Option Task → Bool
live none = false
live (some t) = not (is_terminal t.status)

-- Whether a task is there and is heavy.
abbrev pub is_heavy : Option Task → Bool
is_heavy none = false
is_heavy (some t) = t.heavy

pub record Keeps (m m' : Manager) : Type 0 where
  pub alive : (j : Text) → live (lookup j m.tasks) ≡ true → live (lookup j m'.tasks) ≡ true
  pub finals :
      (j : Text) (t : Task)
      → lookup j m.tasks ≡ some t
      → is_terminal t.status ≡ true
      → lookup j m'.tasks ≡ some t
  pub quiet : m'.waiters ≡ m.waiters
  pub unwoken : m'.woken ≡ m.woken
  pub heavies :
      (j : Text)
      → live (lookup j m.tasks) ≡ true
      → is_heavy (lookup j m'.tasks) ≡ is_heavy (lookup j m.tasks)

pub record Ends (id : Text) (m m' : Manager) : Type 0 where
  pub others : (j : Text) → text_eq id j ≡ false → lookup j m'.tasks ≡ lookup j m.tasks
  pub quiet : (j : Text) → text_eq id j ≡ false → lookup j m'.waiters ≡ lookup j m.waiters
  pub roused : lookup id m'.waiters ≡ none
  pub woke : m'.woken ≡ waiters_of (lookup id m.waiters) ++ m.woken

-- One id does not name two tasks.
same-task :
    (id j : Text) (t task : Task) (m : Manager)
    → id ≡ j
    → lookup id m.tasks ≡ some task
    → lookup j m.tasks ≡ some t
    → is_terminal t.status ≡ is_terminal task.status
same-task id j t task m e found h = cc

-- A task that has not ended is replaced by one that has not.
replace-Keeps :
    (id : Text) (task task' : Task) (m m' : Manager)
    → lookup id m.tasks ≡ some task
    → is_terminal task.status ≡ false
    → is_terminal task'.status ≡ false
    → m'.tasks ≡ insert id task' m.tasks
    → m'.waiters ≡ m.waiters
    → m'.woken ≡ m.woken
    → task'.heavy ≡ task.heavy
    → Keeps m m'
replace-Keeps id task task' m m' found before after e q u k = record {
  alive = λ j h. rw (e, lookup-insert id j task' m.tasks) (ground (arith, text_eq_iff id j));
  finals = λ j t h k.
      rw (e, lookup-insert id j task' m.tasks) (finals_at j t h k (Bool-cases (text_eq id j)));
  quiet = q;
  unwoken = u;
  heavies = λ j h.
      rw (e, lookup-insert id j task' m.tasks)
        (elim (Bool-cases (text_eq id j)) [
          | inl same ↦ heavies_at j ((text_eq_iff id j).0 same) same
          | inr apart ↦ rw apart refl
        ]);
}
  where
    heavies_at :
        (j : Text)
        → id ≡ j
        → text_eq id j ≡ true
        → is_heavy (if text_eq id j then some task' else lookup j m.tasks)
          ≡ is_heavy (lookup j m.tasks)
    heavies_at j e' same =
        rw same (k ∙ ap is_heavy (sym found) ∙ ap (λ i. is_heavy (lookup i m.tasks)) e')

    finals_at :
        (j : Text) (t : Task)
        → lookup j m.tasks ≡ some t
        → is_terminal t.status ≡ true
        → (text_eq id j ≡ true) ⊎ (text_eq id j ≡ false)
        → (if text_eq id j then some task' else lookup j m.tasks) ≡ some t
    finals_at j t h k (inl same) =
        let e = same-task id j t task m ((text_eq_iff id j).0 same) found h in cc
    finals_at j t h k (inr apart) = rw apart h

pub same-Keeps :
    (m m' : Manager) → m'.tasks ≡ m.tasks → m'.waiters ≡ m.waiters → m'.woken ≡ m.woken → Keeps m m'
same-Keeps m m' e q u = record {
  alive = λ j h. rw e h;
  finals = λ j t h k. rw e h;
  quiet = q;
  unwoken = u;
  heavies = λ j h. rw e refl;
}

cancel_found-Keeps :
    (env : Env) (id : Text) (m : Manager) (o : Option Task)
    → lookup id m.tasks ≡ o
    → Keeps m (cancel_found env id m o).0
unfolding cancel_task persist_locked store terminal
cancel_found-Keeps env id m none found = same-Keeps m m refl refl refl
cancel_found-Keeps env id m (some task) found = elim (Bool-cases (is_terminal task.status)) [
  | inl done ↦ same-Keeps m _ (ground arith) (ground arith) (ground arith)
  | inr going ↦
      replace-Keeps id task
        (record task { status = cancelling; message = "正在取消"; updated_at = env.now }) m _ found
        going refl (ground arith) (ground arith) (ground arith) refl
]

pub cancel-Keeps : (env : Env) (id : Text) (m : Manager) → Keeps m (cancel env id m).0
unfolding cancel
cancel-Keeps env id m = cancel_found-Keeps env id m (lookup id m.tasks) refl

update_found-Keeps :
    (env : Env) (id : Text) (progress : ℕ) (message : String) (m : Manager) (o : Option Task)
    → lookup id m.tasks ≡ o
    → Keeps m (update_found env id progress message m o).0
unfolding update_task persist_locked store terminal
update_found-Keeps env id progress message m none found = same-Keeps m m refl refl refl
update_found-Keeps env id progress message m (some task) found =
    elim (Bool-cases (is_terminal task.status)) [
      | inl done ↦ same-Keeps m _ (ground arith) (ground arith) (ground arith)
      | inr going ↦
          replace-Keeps id task
            (record task { progress = progress; message = message; updated_at = env.now }) m _ found
            going going (ground arith) (ground arith) (ground arith) refl
    ]

pub update-Keeps :
    (env : Env) (id : Text) (progress : ℕ) (message : String) (m : Manager)
    → Keeps m (update env id progress message m).0
unfolding update
update-Keeps env id progress message m =
    elim (Bool-cases (float_lt_zero progress || float_gt_one progress)) [
      | inl bad ↦ same-Keeps m _ (ground arith) (ground arith) (ground arith)
      | inr fine ↦ rw fine (update_found-Keeps env id progress message m (lookup id m.tasks) refl)
    ]

pub begin_task-Keeps :
    (env : Env) (id : Text) (task : Task) (m : Manager)
    → lookup id m.tasks ≡ some task
    → is_terminal task.status ≡ false
    → Keeps m (begin_task env id task m)
unfolding begin_task persist_locked store
begin_task-Keeps env id task m found going =
    replace-Keeps id task
      (record task {
        status = running;
        message = "正在执行";
        started_at = env.now;
        updated_at = env.now;
      })
      m _ found going refl (ground arith) (ground arith) (ground arith) refl

-- A task with a new id, which is taken out again if it cannot be saved.
pub submit_locked-Keeps :
    (env : Env) (task : Task) (m : Manager)
    → lookup task.id m.tasks ≡ none
    → is_terminal task.status ≡ false
    → Keeps m (submit_locked env task m).0
unfolding submit_locked persist_locked store
submit_locked-Keeps env task m fresh going = record {
  alive = λ j h. ground (
    arith,
    text_eq_iff task.id j,
    lookup-insert task.id j task m.tasks,
    lookup-erase task.id j (insert task.id task m.tasks),
  );
  finals = λ j t h k. ground (
    arith,
    text_eq_iff task.id j,
    lookup-insert task.id j task m.tasks,
    lookup-erase task.id j (insert task.id task m.tasks),
  );
  quiet = ground arith;
  unwoken = ground arith;
  heavies = λ j h. ground (
    arith,
    text_eq_iff task.id j,
    lookup-insert task.id j task m.tasks,
    lookup-erase task.id j (insert task.id task m.tasks),
  );
}

-- A worker's last critical section, on its own task.
end-Ends :
    (id : Text) (task' : Task) (m m' : Manager)
    → m'.tasks ≡ insert id task' m.tasks
    → m'.waiters ≡ erase id m.waiters
    → m'.woken ≡ waiters_of (lookup id m.waiters) ++ m.woken
    → Ends id m m'
end-Ends id task' m m' e q u = record {
  others = λ j apart. rw (e, lookup-insert id j task' m.tasks, apart);
  quiet = λ j apart. rw (q, lookup-erase id j m.waiters, apart);
  roused = rw (q, lookup-erase id id m.waiters, text_eq_refl id);
  woke = u;
}

pub complete_task-Ends :
    (env : Env) (id : Text) (was_cancelled : Bool) (result : Result) (task : Task) (m : Manager)
    → Ends id m (complete_task env id was_cancelled result task m)
unfolding complete_task persist_locked store notify_locked
complete_task-Ends env id was_cancelled result task m =
    end-Ends id
      (conclude was_cancelled result
        (record task { updated_at = env.now; completed_at = env.now; result = some result }))
      m _ (ground arith) (ground arith) (ground arith)

pub finish_cancelled_task-Ends :
    (env : Env) (id : Text) (message : String) (task : Task) (m : Manager)
    → is_terminal task.status ≡ false
    → Ends id m (finish_cancelled_task env id message task m)
unfolding finish_cancelled_task persist_locked store notify_locked terminal
finish_cancelled_task-Ends env id message task m going =
    end-Ends id
      (record task {
        status = cancelled;
        message = message;
        updated_at = env.now;
        completed_at = env.now;
        result = some (failure "CANCELLED" message "Cancelled" message);
      })
      m _ (ground arith) (ground arith) (ground arith)
