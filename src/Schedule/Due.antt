-- ===== src/Schedule/Due.antt =====
-- The loop of the scheduler in internal/ops/schedule.go never spins: once it has triggered what is
-- due, the nearest time is in the future.
use zcr521_ai_mcp.Schedule.Store.{Scheduler}
use zcr521_ai_mcp.Schedule.Later.{
  DaysAreShort, IsRegularKind, AllRegular, Later, next_of-Later, WeekdaysCome, LaterTime,
}
use zcr521_ai_mcp.Schedule.Parse.{Env}
use zcr521_ai_mcp.Schedule.Data.{Schedule, schedule_next}
use zcr521_ai_mcp.Schedule.Runs.{
  advance, nearest_from, nearest_schedule_time, advance_due, trigger_due_schedules, waits,
  once_only, is_due, nearer, passed, write_due, due_ids,
}
use zcr521_ai_mcp.Schedule.Cron.{Calendar}
use zcr521_ai_mcp.Common.{
  [], ◌∷◌, ℕ, ◌≡◌, Map, true, Bool-cases, ◌<◌, some, inl, arith, inr, ◌==◌, ◌||◌, ltb, refl, Option,
  none, and_then, ◌⊎◌, ◌++◌,
}

-- A schedule that the loop waits for has a time in the future.
abbrev IsAhead : ℕ → Schedule → Type 0
IsAhead now s = waits s ≡ true → now < s.next_run_at

abbrev IsAhead? : ℕ → Option Schedule → Type 0
IsAhead? now none = ⊥
IsAhead? now (some s) = IsAhead now s

timed-IsAhead :
    (now : ℕ) (s : Schedule) (o : Option ℕ)
    → LaterTime now o
    → IsAhead? now (and_then o λ t. some (record s { next_run_at = t }))
timed-IsAhead now s none later = later
timed-IsAhead now s (some t) (inl none') = λ e. ground arith
timed-IsAhead now s (some t) (inr later) = λ e. later

module _ (c : Calendar) (now : ℕ) (short : DaysAreShort c now) (come : WeekdaysCome c) where
  advance-IsAhead : (s : Schedule) → IsRegularKind s s.type → IsAhead? now (advance c now s)
  unfolding advance schedule_next
  advance-IsAhead s r = elim (Bool-cases (once_only s.type)) [
    | inl hit ↦ rw hit (λ e. ground arith)
    | inr miss ↦ rw miss (timed-IsAhead now s _ (next_of-Later c s now s.type short come r))
  ]

  passed-IsAhead : (s : Schedule) → IsRegularKind s s.type → IsAhead? now (passed c now s)
  passed-IsAhead s r = elim (Bool-cases (is_due now s)) [
    | inl hit ↦ rw hit (advance-IsAhead s r)
    | inr miss ↦ rw miss (λ e. ground arith)
  ]

  nearer-Later :
      (s : Schedule) (nearest : ℕ)
      → IsAhead now s
      → Later now nearest
      → Later now (nearer s nearest)
  nearer-Later s nearest ahead later = elim (Bool-cases (waits s)) [
    | inl hit ↦ elim (Bool-cases (nearest == 0 || ltb s.next_run_at nearest)) [
      | inl taken ↦ rw (hit, taken) (inr (ahead hit))
      | inr kept ↦ rw (hit, kept) later
    ]
    | inr miss ↦ rw miss later
  ]

  abbrev AllAhead : Map Schedule → Type 0
  AllAhead [] = Unit {0}
  AllAhead ((_, s) ∷ m) = IsAhead now s × AllAhead m

  nearest_from-Later :
      (m : Map Schedule) (nearest : ℕ)
      → AllAhead m
      → Later now nearest
      → Later now (nearest_from nearest m)
  unfolding nearest_from
  nearest_from-Later [] nearest a later = later
  nearest_from-Later ((id, s) ∷ m) nearest a later =
      nearest_from-Later m _ a.1 (nearer-Later s nearest a.0 later)

  advance_due-AllAhead :
      (m : Map Schedule)
      → AllRegular m
      → (m' : Map Schedule) × (advance_due c now m ≡ some m') × AllAhead m'
  unfolding advance_due
  advance_due-AllAhead [] r = ([], refl, tt)
  advance_due-AllAhead ((id, s) ∷ m) r =
      let (m', e, a) = advance_due-AllAhead m r.1 in
      of_passed m' e a (passed c now s) refl (passed-IsAhead s r.0)
    where
      of_passed :
          (m' : Map Schedule)
          → advance_due c now m ≡ some m'
          → AllAhead m'
          → (o : Option Schedule) → passed c now s ≡ o
          → IsAhead? now o
          → (n : Map Schedule) × (advance_due c now ((id, s) ∷ m) ≡ some n) × AllAhead n
      of_passed m' e a none p k = absurd k
      of_passed m' e a (some s') p k = ((id, s') ∷ m', rw (p, e) refl, (k, a))

-- triggerDueSchedules returns, whatever was due, and each time that nearestScheduleTime then gives the
-- loop is later than now, if no day has more than 24 hours here, fifteen times 24 hours apart have
-- each day of the week, and every schedule has the time of day and the weekday of its kind and an
-- interval of one to 9,223,372,036 seconds.
pub trigger_due_schedules-nearest_later :
    (env : Env) (st : Scheduler)
    → DaysAreShort env.calendar env.now
    → WeekdaysCome env.calendar
    → AllRegular st.schedules
    → (st' : Scheduler) × (trigger_due_schedules env st ≡ some st')
      × ((nearest_schedule_time st'.schedules ≡ none)
          ⊎ ((t : ℕ) × (nearest_schedule_time st'.schedules ≡ some t) × (env.now < t)))
unfolding nearest_schedule_time trigger_due_schedules
trigger_due_schedules-nearest_later env st short come r =
    let (m, e, a) = advance_due-AllAhead env.calendar env.now short come st.schedules r in
    (
      record st {
        schedules = m;
        disk = write_due env env.now st.schedules m st.disk;
        started = due_ids env.now st.schedules ++ st.started;
      },
      rw e refl,
      elim (nearest_from-Later env.calendar env.now short come m 0 a (inl refl)) [
        | inl none' ↦ inl (rw none' refl)
        | inr later ↦ inr (nearest_from 0 m, ground arith, later)
      ],
    )
