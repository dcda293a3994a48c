-- ===== src/Supervisor/Restarts.antt =====
-- The loop of Run in internal/supervisor/supervisor.go, after each round in which a child failed: the
-- recent failures, the rollback, whether to stop, and how long to wait. The rollback is
-- `rollback_pending_candidate` of Versions: where it succeeds, a new process has replaced this one,
-- whose failures and delay are lost.
use zcr521_ai_mcp.Supervisor.Options.{Options}
use zcr521_ai_mcp.Common.{
  [], ◌∷◌, List, ℕ, if◌then◌else◌, Bool, ltb, ◌++◌, ◌+◌, leb, length, ◌-◌, min, ◌*◌,
}

-- The variables of the loop; the failures' times are in the order in which they came.
pub record Loop : Type 0 where
  pub failures : List ℕ
  pub delay : ℕ

pub data Decision : Type 0 where
  replaced : Decision
  stop : ℕ → Decision
  wait : ℕ → Loop → Decision

-- Failures before `now - window` at the front are dropped.
unfoldable pub drop_old : ℕ → ℕ → List ℕ → List ℕ
drop_old window now [] = []
drop_old window now (f ∷ fs) =
    let rest = drop_old window now fs in if ltb (f + window) now then rest else f ∷ fs

-- `started` is when the round began, `now` when its end was seen, `checked` the clock once more,
-- where the round's length is compared with `StableAfter`. `rolled_back` says that the rollback has
-- put the previous binary in place and executed it.
unfoldable pub decide : Options → Loop → ℕ → ℕ → ℕ → Bool → Decision
decide o l started now checked rolled_back =
    let failures = drop_old o.failure_window now (l.failures ++ now ∷ []) in
    if rolled_back
    then Decision.replaced
    else if leb o.max_failures (length failures)
    then stop (length failures)
    else if leb o.stable_after (checked - started)
    then wait o.initial_delay (record { failures = []; delay = o.initial_delay })
    else wait l.delay (record { failures = failures; delay = min (l.delay * 2) o.max_delay })

unfoldable pub first_round : Options → Loop
first_round o = record { failures = []; delay = o.initial_delay }

-- A round that failed: its three times, and whether the rollback after it succeeded.
pub record Round : Type 0 where
  pub started : ℕ
  pub now : ℕ
  pub checked : ℕ
  pub rolled_back : Bool

-- How a run ends: it goes on after the rounds, it stopped, or another process has replaced it.
pub data End : Type 0 where
  going stopped replaced : End

-- The waits of a run over its rounds, and its end.
pub record Outcome : Type 0 where
  pub waits : List ℕ
  pub end : End

abbrev pub add_wait : ℕ → Outcome → Outcome
add_wait w r = record r { waits = w ∷ r.waits }

abbrev pub continue : Decision → (Loop → Outcome) → Outcome
continue Decision.replaced rest = record { waits = []; end = End.replaced }
continue (stop n) rest = record { waits = []; end = stopped }
continue (wait w l) rest = add_wait w (rest l)

unfoldable pub run_rounds : Options → Loop → List Round → Outcome
run_rounds o l [] = record { waits = []; end = going }
run_rounds o l (r ∷ rs) =
    let rest = λ (l' : Loop). run_rounds o l' rs in
    continue (decide o l r.started r.now r.checked r.rolled_back) rest
