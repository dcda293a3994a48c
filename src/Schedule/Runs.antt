-- ===== src/Schedule/Runs.antt =====
-- The loop of the scheduler of internal/ops/schedule.go: the nearest time, the runs that are due, the
-- events, and a run with its retries.
use Prim.Native.Nat.{zero}
use zcr521_ai_mcp.Schedule.Store.{Scheduler, file_name}
use zcr521_ai_mcp.Schedule.Data.{
  Schedule, Kind, once, time_or_zero, boot, schedule_next, other_kind, network, charging, interval,
  second_ns, daily, weekly, cron,
}
use zcr521_ai_mcp.Schedule.Cron.{Calendar}
use zcr521_ai_mcp.Schedule.Parse.{Env}
use zcr521_ai_mcp.Ops.Outcome.{Outcome}
use zcr521_ai_mcp.Common.{
  [], ◌∷◌, ℕ, Map, Text, Bool, if◌then◌else◌, Option, List, ◌&&◌, ◌==◌, true, false, insert, ◌++◌,
  text_eq, not, ◌||◌, none, codes, ltb, some, leb, ◌+◌, ◌*◌, suc, ℤ, lookup, pos, negsuc, and_then,
}

-- Whether `nearestScheduleTime` looks at a schedule.
abbrev pub waits : Schedule → Bool
waits s = s.enabled && not (s.next_run_at == 0)

abbrev pub nearer : Schedule → ℕ → ℕ
nearer s nearest =
    if waits s && (nearest == 0 || ltb s.next_run_at nearest) then s.next_run_at else nearest

-- The loop of nearestScheduleTime, with the nearest time up to there.
unfoldable pub nearest_from : ℕ → Map Schedule → ℕ
nearest_from nearest [] = nearest
nearest_from nearest ((_, s) ∷ m) = nearest_from (nearer s nearest) m

abbrev pub non_zero : ℕ → Option ℕ
non_zero t = if t == 0 then none else some t

unfoldable pub nearest_schedule_time : Map Schedule → Option ℕ
nearest_schedule_time m = non_zero (nearest_from 0 m)

-- Whether a schedule is due.
abbrev pub is_due : ℕ → Schedule → Bool
is_due now s = s.enabled && not (s.next_run_at == 0) && not (ltb now s.next_run_at)

abbrev pub once_only : Kind → Bool
once_only once = true
once_only boot = true
once_only _ = false

-- `none` does not return.
unfoldable pub advance : Calendar → ℕ → Schedule → Option Schedule
advance c now s =
    if once_only s.type
    then some (record s { enabled = false; next_run_at = 0 })
    else (and_then (time_or_zero (schedule_next c s now)) λ t. some (record s { next_run_at = t }))

-- A file is written for each schedule that was due; a failure is dropped.
abbrev pub write_file : Env → Schedule → Map Text → Map Text
write_file env s disk = if env.writes then insert (file_name s.id) (env.encode s) disk else disk

-- The loop of triggerDueSchedules on the map, and what follows it for each schedule that was due.
abbrev pub passed : Calendar → ℕ → Schedule → Option Schedule
passed c now s = if is_due now s then advance c now s else some s

unfoldable pub advance_due : Calendar → ℕ → Map Schedule → Option (Map Schedule)
advance_due c now [] = some []
advance_due c now ((id, s) ∷ m) =
    and_then (passed c now s) λ s'. and_then (advance_due c now m) λ m'. some ((id, s') ∷ m')

unfoldable pub due_ids : ℕ → Map Schedule → List Text
due_ids now [] = []
due_ids now ((id, s) ∷ m) = let rest = due_ids now m in if is_due now s then id ∷ rest else rest

-- The schedules before and after.
unfoldable pub write_due : Env → ℕ → Map Schedule → Map Schedule → Map Text → Map Text
write_due env now ((_, s) ∷ m) ((_, s') ∷ m') disk =
    write_due env now m m' (if is_due now s then write_file env s' disk else disk)
write_due env now _ _ disk = disk

unfoldable pub trigger_due_schedules : Env → Scheduler → Option Scheduler
trigger_due_schedules env st = and_then (advance_due env.calendar env.now st.schedules) λ m.
    some (record st {
      schedules = m;
      disk = write_due env env.now st.schedules m st.disk;
      started = due_ids env.now st.schedules ++ st.started;
    })

-- The type of a schedule as an event's kind.
abbrev pub is_kind : Text → Kind → Bool
is_kind event network = text_eq event (codes "network")
is_kind event charging = text_eq event (codes "charging")
is_kind event once = text_eq event (codes "once")
is_kind event interval = text_eq event (codes "interval")
is_kind event daily = text_eq event (codes "daily")
is_kind event weekly = text_eq event (codes "weekly")
is_kind event cron = text_eq event (codes "cron")
is_kind event boot = text_eq event (codes "boot")
is_kind event (other_kind k) = text_eq event k

-- Whether an event at `now` runs a schedule: a run less than thirty seconds ago holds it back.
abbrev pub answers : Text → ℕ → Schedule → Bool
answers event now s =
    s.enabled
    && is_kind event s.type
    && (s.last_run_at == 0 || leb (s.last_run_at + 30 * second_ns) now)

unfoldable pub answering_ids : Text → ℕ → Map Schedule → List Text
answering_ids event now [] = []
answering_ids event now ((id, s) ∷ m) =
    let rest = answering_ids event now m in if answers event now s then id ∷ rest else rest

-- A zero time of the event is the clock's.
unfoldable pub trigger_schedule_event : Env → Text → ℕ → Scheduler → Scheduler
trigger_schedule_event env event at st = record st {
  started = answering_ids event (if at == 0 then env.now else at) st.schedules ++ st.started;
}

-- The attempts of executeSchedule: the number of calls of Execute and the last result. `execute` is
-- given the number of the attempt; `left` is the number of retries that are left.
unfoldable pub attempts : (ℕ → Outcome) → ℕ → ℕ → ℕ × Outcome
attempts execute attempt zero = (suc attempt, execute attempt)
attempts execute attempt (suc left) =
    let rest = attempts execute (suc attempt) left in
    if (execute attempt).success then (suc attempt, execute attempt) else rest

-- `attempt <= retryCount`: a negative count makes no attempt, and the zero Result is kept.
unfoldable pub run_target : Outcome → (ℕ → Outcome) → ℤ → ℕ × Outcome
run_target zero_result execute (pos n) = attempts execute 0 n
run_target zero_result execute (negsuc _) = (0, zero_result)

unfoldable pub ran : ℕ → Outcome → Schedule → Schedule
ran now result s = record s { last_run_at = now; last_result = result; run_count = suc s.run_count }

-- The end of executeSchedule, on the map as it is then.
unfoldable pub finish_run : Env → Text → Outcome → Scheduler → Scheduler
finish_run env id result st = on_current (lookup id st.schedules)
  where
    on_current : Option Schedule → Scheduler
    on_current none = st
    on_current (some s) =
        let s' = ran env.now result s in
        record st { schedules = insert id s' st.schedules; disk = write_file env s' st.disk }
