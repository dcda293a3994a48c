-- ===== src/Tasks/Finality.antt =====
-- internal/tasks/manager.go: a task that has ended is never changed again.
use mathlib.Core.Path.{subst, sym}
use zcr521_ai_mcp.Tasks.Links.{Keeps-Linked, back-Linked, Split-All}
use zcr521_ai_mcp.Tasks.Boot.{boot-Linked, new-Loaded}
use zcr521_ai_mcp.Tasks.Lives.{Linked, Moves, LiveIn, run-Moves, Apart, Distinct}
use zcr521_ai_mcp.Tasks.Workers.{Picked, take_worker-Picked}
use zcr521_ai_mcp.Tasks.Changes.{
  Keeps, same-Keeps, live, cancel-Keeps, submit_locked-Keeps, update-Keeps,
}
use zcr521_ai_mcp.Tasks.Data.{
  Manager, terminal, Env, persist_locked, Task, store, is_terminal, waiters_of,
}
use zcr521_ai_mcp.Tasks.Client.{
  submit_locked, submit, close, Reply, err, ok, wait_found, new_task, wait,
}
use zcr521_ai_mcp.Common.{
  Text, Option, String, List, ℕ, Bool, lookup, ◌≡◌, arith, false, none, [], ◌∷◌, some, true, All,
  Bool-cases, lookup-insert, inl, text_eq, text_eq_refl, refl, inr, text_eq_iff, ◌++◌,
}
use zcr521_ai_mcp.Tasks.Worker.{spawn, Choice, Worker, run}
use zcr521_ai_mcp.Tasks.System.{
  step, System, Action, Reach, IsFresh, stepped, submits, started, work, booted, cancels, updates,
  waits, works, closes,
}

-- What Submit promises of a task that it accepts.
abbrev Accepted : Manager → Manager → Reply Task → Type 0
Accepted m m' (err e) = Unit {0}
Accepted m m' (ok task) = (lookup task.id m.tasks ≡ none) × (live (lookup task.id m'.tasks) ≡ true)

submit_locked-Accepted :
    (env : Env) (task : Task) (m : Manager)
    → lookup task.id m.tasks ≡ none
    → is_terminal task.status ≡ false
    → Accepted m (submit_locked env task m).0 (submit_locked env task m).1
unfolding submit_locked persist_locked store
submit_locked-Accepted env task m fresh going =
    ground (arith, lookup-insert task.id task.id task m.tasks, text_eq_refl task.id)

pub submit-Keeps :
    (env : Env) (tool : Text) (raw : Option String) (heavy durable : Bool) (id : Option Text)
    (s : System)
    → IsFresh (submits env tool raw heavy durable id) s
    → let r = submit env tool raw heavy durable id s.manager in
      Keeps s.manager r.0 × Accepted s.manager r.0 r.1
unfolding submit
submit-Keeps env [] raw heavy durable id s f = (same-Keeps s.manager s.manager refl refl refl, tt)
submit-Keeps env (_ ∷ _) none heavy durable id s f =
    (same-Keeps s.manager s.manager refl refl refl, tt)
submit-Keeps env (_ ∷ _) (some raw) heavy durable none s f =
    (same-Keeps s.manager s.manager refl refl refl, tt)
submit-Keeps env (b ∷ tool) (some raw) heavy durable (some id) s f =
    let task = new_task id (b ∷ tool) raw heavy durable env.now in
    (
      submit_locked-Keeps env task s.manager (unfold new_task in f) (unfold new_task in refl),
      submit_locked-Accepted env task s.manager (unfold new_task in f) (unfold new_task in refl),
    )

-- A new id is no worker's.
fresh-Apart :
    (id : Text) (m : Manager) (ws : List Worker)
    → lookup id m.tasks ≡ none
    → All (LiveIn m) ws
    → Apart id ws
fresh-Apart id m [] f a = tt
fresh-Apart id m (w ∷ ws) f a = (
  elim (Bool-cases (text_eq id w.id)) [
    | inl same ↦
        let gone : lookup w.id m.tasks ≡ none =
          subst (λ k. lookup k m.tasks ≡ none) ((text_eq_iff id w.id).0 same) f in
        absurd (subst (λ o. live o ≡ true → ⊥) (sym gone) (λ e. cc) a.0)
    | inr apart ↦ apart
  ],
  fresh-Apart id m ws f a.1,
)

started-Linked :
    (m : Manager) (reply : Reply Task) (s : System)
    → Keeps s.manager m
    → Accepted s.manager m reply
    → Linked s
    → Linked (record { manager = m; workers = started reply s.workers })
unfolding spawn
started-Linked m (err e) s k a v = Keeps-Linked m s k v
started-Linked m (ok task) s k a v =
    let kept = Keeps-Linked m s k v in
    record {
      alive = (a.1, kept.alive);
      distinct = (fresh-Apart task.id s.manager s.workers a.0 v.alive, v.distinct);
      awaited = kept.awaited;
    }

wait-Linked :
    (id : Text) (channel : ℕ) (s : System) (o : Option Task)
    → lookup id s.manager.tasks ≡ o
    → Linked s
    → Linked (record s { manager = (wait_found id channel s.manager o).0 })
unfolding terminal
wait-Linked id channel s none e v = v
wait-Linked id channel s (some task) e v = elim (Bool-cases (terminal task)) [
  | inl done ↦ rw done v
  | inr going ↦ rw going (record {
    alive = v.alive;
    distinct = v.distinct;
    awaited = λ j h. elim (Bool-cases (text_eq id j)) [
      | inl same ↦
          subst (λ k. live (lookup k s.manager.tasks) ≡ true) ((text_eq_iff id j).0 same)
            (rw (e, going))
      | inr apart ↦ v.awaited j (
          ground (
            arith,
            lookup-insert id j (waiters_of (lookup id s.manager.waiters) ++ channel ∷ [])
                s.manager.waiters,
          ))
    ];
  })
]

work-Linked :
    (env : Env) (id : Text) (c : Choice) (s : System) (o : Option (Worker × List Worker))
    → Picked id s.workers o
    → Linked s
    → Linked (work env c s o)
work-Linked env id c s none k v = v
work-Linked env id c s (some (w, rest)) k v =
    back-Linked s.manager _ w _ s.workers rest v k.0
      (run-Moves env c w s.manager (Split-All (LiveIn s.manager) k.0 v.alive).0)

pub close-Keeps : (m : Manager) → Keeps m (close m)
unfolding close
close-Keeps m = same-Keeps m _ (ground arith) (ground arith) (ground arith)

step-Linked : (a : Action) (s : System) → IsFresh a s → Linked s → Linked (step a s)
unfolding step
step-Linked (submits env tool raw heavy durable id) s f v =
    let (k, a) = submit-Keeps env tool raw heavy durable id s f in
    started-Linked _ (submit env tool raw heavy durable id s.manager).1 s k a v
step-Linked (cancels env id) s f v = Keeps-Linked _ s (cancel-Keeps env id s.manager) v
step-Linked (updates env id progress message) s f v =
    Keeps-Linked _ s (update-Keeps env id progress message s.manager) v
step-Linked (waits id channel) s f v =
    unfold wait in wait-Linked id channel s (lookup id s.manager.tasks) refl v
step-Linked closes s f v = Keeps-Linked _ s (close-Keeps s.manager) v
step-Linked (works env id c) s f v = work-Linked env id c s _ (take_worker-Picked id s.workers) v

pub Reach-Linked : {s : System} → Reach s → Linked s
Reach-Linked (booted total_limit heavy_limit made env env' es e) =
    boot-Linked env' _ (new-Loaded total_limit heavy_limit made env es _ e)
Reach-Linked (stepped a r f) = step-Linked a _ f (Reach-Linked r)

-- Whether a task is there and has ended.
abbrev ended : Option Task → Bool
ended none = false
ended (some t) = is_terminal t.status

-- A worker's own task has not ended, so the end of another is kept by a worker too.
moved-final :
    (m m' : Manager) (w : Worker) (w' : Option Worker) (j : Text) (t : Task)
    → live (lookup w.id m.tasks) ≡ true
    → Moves m w m' w'
    → lookup j m.tasks ≡ some t
    → is_terminal t.status ≡ true
    → lookup j m'.tasks ≡ some t
moved-final m m' w (some u) j t l mv h k = mv.0.finals j t h k
moved-final m m' w none j t l mv h k = elim (Bool-cases (text_eq w.id j)) [
  | inl same ↦
      let l' : live (lookup j m.tasks) ≡ true =
        subst (λ x. live (lookup x m.tasks) ≡ true) ((text_eq_iff w.id j).0 same) l in
      absurd (ground arith)
  | inr apart ↦ rw (mv.others j apart) h
]

work-final :
    (env : Env) (id : Text) (c : Choice) (s : System) (o : Option (Worker × List Worker)) (j : Text)
    (t : Task)
    → Picked id s.workers o
    → Linked s
    → lookup j s.manager.tasks ≡ some t
    → is_terminal t.status ≡ true
    → lookup j (work env c s o).manager.tasks ≡ some t
work-final env id c s none j t k v h e = h
work-final env id c s (some (w, rest)) j t k v h e =
    let own = (Split-All (LiveIn s.manager) k.0 v.alive).0 in
    moved-final s.manager _ w (run env c w s.manager).1 j t own (run-Moves env c w s.manager own) h
      e

pub wait-tasks : (id : Text) (channel : ℕ) (m : Manager) → (wait id channel m).0.tasks ≡ m.tasks
unfolding wait
wait-tasks id channel m = ground arith

step-final :
    (a : Action) (s : System) (j : Text) (t : Task)
    → IsFresh a s
    → Linked s
    → lookup j s.manager.tasks ≡ some t
    → is_terminal t.status ≡ true
    → lookup j (step a s).manager.tasks ≡ some t
unfolding step
step-final (submits env tool raw heavy durable id) s j t f v h e =
    (submit-Keeps env tool raw heavy durable id s f).0.finals j t h e
step-final (cancels env id) s j t f v h e = (cancel-Keeps env id s.manager).finals j t h e
step-final (updates env id progress message) s j t f v h e =
    (update-Keeps env id progress message s.manager).finals j t h e
step-final (waits id channel) s j t f v h e = rw (wait-tasks id channel s.manager) h
step-final closes s j t f v h e = (close-Keeps s.manager).finals j t h e
step-final (works env id c) s j t f v h e =
    work-final env id c s _ j t (take_worker-Picked id s.workers) v h e

-- The states that come after one, by actions whose new ids are new.
pub data Later (s : System) : System → Type 0 where
  now : Later s s
  then' : (a : Action) {u : System} → Later s u → IsFresh a u → Later s (step a u)

pub Later-Reach : {s u : System} → Reach s → Later s u → Reach u
Later-Reach r now = r
Later-Reach r (then' a l f) = stepped a (Later-Reach r l) f

-- From a state that the task manager reaches, a task that has succeeded, failed, timed out or been
-- cancelled keeps its status, result and every other field, whatever clients and workers do next.
pub terminal_final :
    {s u : System} (j : Text) (t : Task)
    → Reach s
    → Later s u
    → lookup j s.manager.tasks ≡ some t
    → terminal t ≡ true
    → lookup j u.manager.tasks ≡ some t
unfolding terminal
terminal_final j t r now h e = h
terminal_final j t r (then' a {u = v} l f) h e =
    step-final a v j t f (Reach-Linked (Later-Reach r l)) (terminal_final j t r l h e) e

-- In a state that the task manager reaches, the task of every worker is there and has not ended, and
-- no two workers have one task.
pub workers_apart :
    {s : System}
    → Reach s
    → All (λ w. live (lookup w.id s.manager.tasks) ≡ true) s.workers × Distinct s.workers
workers_apart r = let v = Reach-Linked r in (v.alive, v.distinct)
