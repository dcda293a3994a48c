-- ===== src/Tasks/Limits.antt =====
-- The semaphores of internal/tasks/manager.go: what the workers hold is what is counted, and the
-- limits are kept.
use zcr521_ai_mcp.Common.{
  ℕ, ◌+◌, ◌≤◌, map, ◌≡◌, refl, Bool, true, false, ◌&&◌, Option, none, some, List, [], ◌∷◌, Text,
  arith, All,
}
use zcr521_ai_mcp.Tasks.Data.{new_manager, Manager, Env, persist_locked, store}
use zcr521_ai_mcp.Tasks.Worker.{
  Worker, Phase, waiting_total, reading, waiting_heavy, starting, executing, stopping, Choice, slot,
  closing, runs, slots, spawn, release, begin_task, run_phase, run,
}
use zcr521_ai_mcp.Tasks.Client.{wait, close}
use zcr521_ai_mcp.Tasks.Restart.{Entry, new, resume_interrupted}
use zcr521_ai_mcp.Tasks.System.{
  System, Action, submits, cancels, updates, waits, closes, works, back, work, step, boot, Reach,
  booted, stepped,
}
use zcr521_ai_mcp.Tasks.Slots.{
  finish_cancelled-SameSlots, complete-SameSlots, submit-SameSlots, cancel-SameSlots,
  update-SameSlots, resume_interrupted-SameSlots, load-SameSlots,
}
use zcr521_ai_mcp.Tasks.Workers.{Split, here, there, Picked, take_worker-Picked}

-- The slots of all workers.
abbrev pub held_total : List Worker → ℕ
held_total [] = 0
held_total (w ∷ ws) = slots w.holds_total + held_total ws

abbrev pub held_heavy : List Worker → ℕ
held_heavy [] = 0
held_heavy (w ∷ ws) = slots w.holds_heavy + held_heavy ws

-- What each place of `run` has acquired.
abbrev pub IsPlaced : Phase → Worker → Type 0
IsPlaced waiting_total w = (w.holds_total ≡ false) × (w.holds_heavy ≡ false) × (w.heavy ≡ false)
IsPlaced reading w = (w.holds_total ≡ true) × (w.holds_heavy ≡ false) × (w.heavy ≡ false)
IsPlaced waiting_heavy w = (w.holds_total ≡ true) × (w.holds_heavy ≡ false) × (w.heavy ≡ true)
IsPlaced starting w = (w.holds_total ≡ true) × (w.holds_heavy ≡ w.heavy)
IsPlaced executing w = (w.holds_total ≡ true) × (w.holds_heavy ≡ w.heavy)
IsPlaced (stopping _) w = Unit {0}

abbrev pub Placed : Worker → Type 0
Placed w = IsPlaced w.phase w

abbrev pub Placed? : Option Worker → Type 0
Placed? none = Unit {0}
Placed? (some w) = Placed w

-- One step of a worker moves as many slots as it counts.
pub record Balanced (m : Manager) (w : Worker) (m' : Manager) (w' : Option Worker) : Type 0 where
  pub total : m'.total_sem + slots w.holds_total ≡ m.total_sem + held_total (back w' [])
  pub heavy : m'.heavy_sem + slots w.holds_heavy ≡ m.heavy_sem + held_heavy (back w' [])
  pub total_limit : m'.total_limit ≡ m.total_limit
  pub heavy_limit : m'.heavy_limit ≡ m.heavy_limit
  pub total_kept : m.total_sem ≤ m.total_limit → m'.total_sem ≤ m.total_limit
  pub heavy_kept : m.heavy_sem ≤ m.heavy_limit → m'.heavy_sem ≤ m.heavy_limit
  pub placed : Placed? w'

run_phase-Balanced :
    (env : Env) (p : Phase) (c : Choice) (w : Worker) (m : Manager)
    → p ≡ w.phase
    → IsPlaced p w
    → slots w.holds_total ≤ m.total_sem
    → slots w.holds_heavy ≤ m.heavy_sem
    → Balanced m w (run_phase env p c w m).0 (run_phase env p c w m).1
unfolding run_phase release begin_task persist_locked store
run_phase-Balanced env waiting_total slot w m e p ht hh = ground arith
run_phase-Balanced env waiting_total closing w m e p ht hh = ground arith
run_phase-Balanced env reading slot w m e p ht hh = ground arith
run_phase-Balanced env waiting_heavy slot w m e p ht hh = ground arith
run_phase-Balanced env waiting_heavy closing w m e p ht hh = ground arith
run_phase-Balanced env starting slot w m e p ht hh = ground arith
run_phase-Balanced env executing (runs result) w m e p ht hh =
    ground (arith, complete-SameSlots env w result m)
run_phase-Balanced env (stopping message) slot w m e p ht hh =
    ground (arith, finish_cancelled-SameSlots env w.id message m)
run_phase-Balanced env _ _ w m e p ht hh = ground arith

pub run-Balanced :
    (env : Env) (c : Choice) (w : Worker) (m : Manager)
    → Placed w
    → slots w.holds_total ≤ m.total_sem
    → slots w.holds_heavy ≤ m.heavy_sem
    → Balanced m w (run env c w m).0 (run env c w m).1
unfolding run
run-Balanced env c w m p ht hh = run_phase-Balanced env w.phase c w m refl p ht hh

-- Taking a worker out of the list loses nothing.
pub record Taken (ws : List Worker) (w : Worker) (rest : List Worker) : Type 0 where
  pub total : held_total ws ≡ slots w.holds_total + held_total rest
  pub heavy : held_heavy ws ≡ slots w.holds_heavy + held_heavy rest
  pub placed : All Placed ws → Placed w × All Placed rest

Split-Taken :
    {ws : List Worker} {w : Worker} {rest : List Worker} → Split ws w rest → Taken ws w rest
Split-Taken (here w ws) = record { total = refl; heavy = refl; placed = λ p. p }
Split-Taken (there v s) =
    let t = Split-Taken s in
    record {
      total = omega arith;
      heavy = omega arith;
      placed = λ p. let (q, r) = t.placed p.1 in (q, (p.0, r));
    }

-- The semaphores count what the workers hold, within the limits, and each worker holds what its
-- place needs.
pub record WithinLimits (s : System) : Type 0 where
  pub total_counted : s.manager.total_sem ≡ held_total s.workers
  pub heavy_counted : s.manager.heavy_sem ≡ held_heavy s.workers
  pub total_bounded : s.manager.total_sem ≤ s.manager.total_limit
  pub heavy_bounded : s.manager.heavy_sem ≤ s.manager.heavy_limit
  pub placed : All Placed s.workers

back-WithinLimits :
    (m m' : Manager) (w : Worker) (w' : Option Worker) (ws rest : List Worker)
    → WithinLimits (record { manager = m; workers = ws })
    → Taken ws w rest
    → Balanced m w m' w'
    → WithinLimits (record { manager = m'; workers = back w' rest })
back-WithinLimits m m' w none ws rest v t b = record {
  total_counted = omega arith;
  heavy_counted = omega arith;
  total_bounded = omega (arith, b.total_kept v.total_bounded);
  heavy_bounded = omega (arith, b.heavy_kept v.heavy_bounded);
  placed = (t.placed v.placed).1;
}
back-WithinLimits m m' w (some u) ws rest v t b = record {
  total_counted = omega arith;
  heavy_counted = omega arith;
  total_bounded = omega (arith, b.total_kept v.total_bounded);
  heavy_bounded = omega (arith, b.heavy_kept v.heavy_bounded);
  placed = (b.placed, (t.placed v.placed).1);
}

work-WithinLimits :
    (env : Env) (id : Text) (c : Choice) (s : System) (o : Option (Worker × List Worker))
    → Picked id s.workers o
    → WithinLimits s
    → WithinLimits (work env c s o)
work-WithinLimits env id c s none k v = v
work-WithinLimits env id c s (some (w, rest)) k v =
    let t = Split-Taken k.0 in
    back-WithinLimits s.manager _ w _ s.workers rest v t
      (run-Balanced env c w s.manager (t.placed v.placed).0 (omega arith) (omega arith))

-- Any critical section of any client or worker keeps the semaphores exact and within their limits.
pub step-WithinLimits : (a : Action) (s : System) → WithinLimits s → WithinLimits (step a s)
unfolding step wait close spawn
step-WithinLimits (submits env tool raw heavy durable id) s v =
    ground (arith, submit-SameSlots env tool raw heavy durable id s.manager)
step-WithinLimits (cancels env id) s v = ground (arith, cancel-SameSlots env id s.manager)
step-WithinLimits (updates env id progress message) s v =
    ground (arith, update-SameSlots env id progress message s.manager)
step-WithinLimits (waits id channel) s v = ground arith
step-WithinLimits closes s v = ground arith
step-WithinLimits (works env id c) s v =
    work-WithinLimits env id c s _ (take_worker-Picked id s.workers) v

new-WithinLimits :
    (total_limit heavy_limit : ℕ) (made : Bool) (env : Env) (es : List Entry) (m : Manager)
    → new total_limit heavy_limit made env es ≡ some m
    → (m.total_sem ≡ 0) × (m.heavy_sem ≡ 0)
unfolding new new_manager
new-WithinLimits total_limit heavy_limit made env es m e =
    ground (arith, load-SameSlots env es (new_manager total_limit heavy_limit) m)

spawned-held :
    (ids : List Text)
    → (held_total (map spawn ids) ≡ 0)
      × (held_heavy (map spawn ids) ≡ 0)
      × All Placed (map spawn ids)
unfolding spawn
spawned-held [] = ground arith
spawned-held (id ∷ ids) = ground (arith, spawned-held ids)

pub Reach-WithinLimits : {s : System} → Reach s → WithinLimits s
unfolding boot
Reach-WithinLimits (booted total_limit heavy_limit made env env' es {m = m} e) = ground (
  arith,
  new-WithinLimits total_limit heavy_limit made env es m e,
  resume_interrupted-SameSlots env' m.tasks m,
  spawned-held (resume_interrupted env' m.tasks m).1,
)
Reach-WithinLimits (stepped a r f) = step-WithinLimits a _ (Reach-WithinLimits r)

abbrev pub executes : Phase → Bool
executes executing = true
executes _ = false

-- The workers whose runner runs, and those of them that have marked themselves as heavy.
abbrev pub running_total : List Worker → ℕ
running_total [] = 0
running_total (w ∷ ws) = slots (executes w.phase) + running_total ws

abbrev pub running_heavy : List Worker → ℕ
running_heavy [] = 0
running_heavy (w ∷ ws) = slots (executes w.phase && w.heavy) + running_heavy ws

Placed-slots :
    (p : Phase) (w : Worker)
    → IsPlaced p w
    → (slots (executes p) ≤ slots w.holds_total)
      × (slots (executes p && w.heavy) ≤ slots w.holds_heavy)
Placed-slots p w k = ground arith

running-held :
    (ws : List Worker)
    → All Placed ws
    → (running_total ws ≤ held_total ws) × (running_heavy ws ≤ held_heavy ws)
running-held [] p = omega arith
running-held (w ∷ ws) p = omega (arith, Placed-slots w.phase w p.0, running-held ws p.1)

-- At most so many workers run as there are slots; the heavy ones are those that have marked
-- themselves.
pub marked_bounded :
    {s : System}
    → Reach s
    → (running_total s.workers ≤ s.manager.total_limit)
      × (running_heavy s.workers ≤ s.manager.heavy_limit)
marked_bounded {s} r =
    let v = Reach-WithinLimits r in omega (arith, running-held s.workers v.placed)
