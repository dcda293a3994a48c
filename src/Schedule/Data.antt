-- ===== src/Schedule/Data.antt =====
-- scheduleState and scheduleNext of internal/ops/schedule.go. A time is a number of nanoseconds, and
-- 0 is Go's zero time.
use Prim.Native.Nat.{zero}
use zcr521_ai_mcp.Transfer.Syntax.{split}
use zcr521_ai_mcp.Ops.Numbers.{atoi}
use zcr521_ai_mcp.Ops.Naming.{OpsRequest}
use zcr521_ai_mcp.Ops.Outcome.{Outcome}
use zcr521_ai_mcp.Schedule.Cron.{Calendar, Answer, ok, err, next_cron_time}
use zcr521_ai_mcp.Common.{
  ◌∷◌, Text, ℕ, ℤ, Option, List, Bool, pos, suc, some, if◌then◌else◌, to_int64, ◌+◌, none, ltb, not,
  ◌*◌, negsuc, int_eq, ◌==◌, is_empty, ◌-◌, ◌||◌, ◌&&◌, ◌%◌, text_eq, codes, all,
}

pub data Kind : Type 0 where
  once interval daily weekly cron boot network charging : Kind
  other_kind : Text → Kind

pub record Schedule : Type 0 where
  pub id : Text
  pub name : Text
  pub enabled : Bool
  pub type : Kind
  pub at : ℕ
  pub every_seconds : ℤ
  pub time_of_day : Text
  pub weekday : ℤ
  pub cron : Text
  pub target : OpsRequest
  pub retry_count : ℤ
  pub retry_delay_seconds : ℤ
  pub created_at : ℕ
  pub next_run_at : ℕ
  pub last_run_at : ℕ
  pub last_result : Outcome
  pub run_count : ℕ

abbrev pub second_ns : ℕ
second_ns = 1000000000

abbrev pub day_ns : ℕ
day_ns = 86400000000000

-- A product in int64.
unfoldable pub times_int64 : ℤ → ℕ → ℤ
times_int64 (pos n) unit = to_int64 (n * unit)
times_int64 (negsuc n) unit =
    to_int64 (18446744073709551616 - (n + 1) * unit % 18446744073709551616)

-- time.Time.Add
unfoldable pub add_time : ℕ → ℤ → ℕ
add_time t (pos d) = t + d
add_time t (negsuc d) = t - (d + 1)

-- `panics` is an index out of range, `unfinished` a loop that is not over after fifteen steps of 24
-- hours, which reach every day of the week also where a day has 23 or 25 hours: it never ends.
pub data Next : Type 0 where
  at_time : ℕ → Next
  failed panics unfinished : Next

abbrev pub cron_next : Answer ℕ → Next
cron_next (ok t) = at_time t
cron_next (err e) = failed

-- An error of Atoi is dropped, and its number is 0.
abbrev pub or_zero : Option ℤ → ℤ
or_zero none = pos 0
or_zero (some n) = n

abbrev pub next_daily : Calendar → List Text → ℕ → Option ℕ
next_daily c (h ∷ m ∷ _) after =
    let next = c.today_at after (or_zero (atoi h)) (or_zero (atoi m)) in
    some (if ltb after next then next else next + day_ns)
next_daily c _ after = none

unfoldable pub next_weekday : Calendar → ℤ → ℕ → ℕ → Next
next_weekday c weekday zero next = unfinished
next_weekday c weekday (suc fuel) next =
    let more = next_weekday c weekday fuel (next + day_ns) in
    if int_eq weekday (c.weekday next) then at_time next else more

abbrev pub daily_next : Option ℕ → Next
daily_next none = panics
daily_next (some t) = at_time t

abbrev pub weekly_next : Calendar → ℤ → Option ℕ → Next
weekly_next c weekday none = panics
weekly_next c weekday (some t) = next_weekday c weekday 15 t

abbrev pub next_of : Calendar → Schedule → ℕ → Kind → Next
next_of c s after once = if ltb after s.at then at_time s.at else failed
next_of c s after interval = at_time (add_time after (times_int64 s.every_seconds second_ns))
next_of c s after daily = daily_next (next_daily c (split b':' s.time_of_day) after)
next_of c s after weekly = weekly_next c s.weekday (next_daily c (split b':' s.time_of_day) after)
next_of c s after cron = cron_next (next_cron_time c s.cron after)
next_of c s after boot = at_time (after + 10 * second_ns)
next_of c s after network = at_time 0
next_of c s after charging = at_time 0
next_of c s after (other_kind _) = failed

unfoldable pub schedule_next : Calendar → Schedule → ℕ → Next
schedule_next c s after = next_of c s after s.type

-- `schedule.NextRunAt, _ =`: an error leaves the zero time; `none` does not get there.
abbrev pub time_or_zero : Next → Option ℕ
time_or_zero (at_time t) = some t
time_or_zero failed = some 0
time_or_zero panics = none
time_or_zero unfinished = none

unfoldable pub is_id_byte : ℕ → Bool
is_id_byte c =
    not (c == b'/' || c == 0x5c || c == 0 || c == 0x0d || c == 0x0a || c == 0x09 || c == 0x20)

-- safeScheduleID
unfoldable pub safe_schedule_id : Text → Bool
safe_schedule_id id =
    not (is_empty id)
    && not (text_eq id (codes "."))
    && not (text_eq id (codes ".."))
    && all is_id_byte id
