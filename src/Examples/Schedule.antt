-- ===== src/Examples/Schedule.antt =====
-- A scheduler with one schedule (internal/ops/schedule.go), in UTC.
use zcr521_ai_mcp.Ops.Numbers.{atoi, digits_value}
use zcr521_ai_mcp.Schedule.Least.{minute_after, next_cron_time_least}
use zcr521_ai_mcp.Schedule.Due.{trigger_due_schedules-nearest_later}
use zcr521_ai_mcp.Transfer.Syntax.{split}
use zcr521_ai_mcp.Schedule.Cron.{
  Calendar, words, Part, next_cron_time, minute_ns, cron_part, cut, ok, err, no_match,
  first_candidate,
}
use zcr521_ai_mcp.Schedule.Fields.{Fields, Fires, AllReadAs, five}
use zcr521_ai_mcp.Schedule.Data.{Schedule, interval, day_ns}
use zcr521_ai_mcp.Schedule.Store.{Scheduler, schedule_operation}
use zcr521_ai_mcp.Schedule.Later.{DaysAreShort, WeekdaysCome}
use zcr521_ai_mcp.Schedule.Runs.{nearest_schedule_time, trigger_due_schedules}
use zcr521_ai_mcp.Ops.Naming.{OpsRequest}
use zcr521_ai_mcp.Schedule.Map.{view_of, promised_change, schedule_operation-promised, Agrees}
use zcr521_ai_mcp.Ops.Outcome.{done}
use zcr521_ai_mcp.Schedule.Parse.{Env}
use zcr521_ai_mcp.Ops.Values.{text}
use zcr521_ai_mcp.Common.{
  [], ◌∷◌, ℕ, ℤ, Text, ◌*◌, pos, ◌/◌, codes, true, arith, ◌<◌, negsuc, ◌≡◌, false, ◌%◌, ◌+◌, ◌⊎◌,
  some, none, refl, text_eq, ◌-◌,
}

abbrev hour_ns : ℕ
hour_ns = 3600000000000

abbrev minutes_of : ℤ → ℕ
minutes_of (pos n) = n
minutes_of (negsuc _) = 0

abbrev utc : Calendar
utc = record {
  minute = λ t. t / minute_ns % 60;
  hour = λ t. t / hour_ns % 24;
  day = λ t. t / day_ns % 31 + 1;
  month = λ t. t / day_ns / 31 % 12 + 1;
  weekday = λ t. (t / day_ns + 4) % 7;
  today_at = λ t h m. t / day_ns * day_ns + minutes_of h * hour_ns + minutes_of m * minute_ns;
  add_years = λ t n. t + n * 365 * day_ns;
}

-- `0 3-5/2 * * 1` is three and five o'clock on Mondays.
abbrev expression : Text
expression = codes "0 3-5/2 * * 1"

abbrev from_to : ℕ → ℕ → ℕ → Part
from_to first last step = record { first = first; last = last; step = step }

abbrev mondays : Fields
mondays = record {
  minutes = from_to 0 0 1 ∷ [];
  hours = from_to 3 5 2 ∷ [];
  days = from_to 1 31 1 ∷ [];
  months = from_to 1 12 1 ∷ [];
  weekdays = from_to 1 1 1 ∷ [];
}

mondays-AllReadAs : AllReadAs (words expression) mondays
unfolding words split cron_part cut atoi digits_value text_eq
mondays-AllReadAs =
    five (codes "0") (codes "3-5/2") (codes "*") (codes "*") (codes "1") (refl, tt) (refl, tt)
      (refl, tt) (refl, tt) (refl, tt)

next_cron_time_least_example :
    ((k : ℕ) × (next_cron_time utc expression 5000 ≡ ok (minute_after 5000 k))
      × (5000 < minute_after 5000 k)
      × Fires utc mondays (minute_after 5000 k)
      × ((j : ℕ) → j < k → ¬ (Fires utc mondays (minute_after 5000 j))))
    ⊎ ((next_cron_time utc expression 5000 ≡ err no_match)
        × ((j : ℕ)
            → minute_after 5000 j < utc.add_years (first_candidate 5000) 5
            → ¬ (Fires utc mondays (minute_after 5000 j))))
next_cron_time_least_example = next_cron_time_least utc expression mondays 5000 mondays-AllReadAs

abbrev env : Env
env = record {
  now = 100 * hour_ns;
  random = codes "r";
  calendar = utc;
  lower = λ s. s;
  rfc3339 = λ s. none;
  json_clone = λ v. v;
  encode = λ s. s.id;
  decode = λ raw. none;
  dirs = true;
  writes = true;
  removes = true;
}

abbrev hourly : Schedule
hourly = record {
  id = codes "a";
  name = codes "a";
  enabled = true;
  type = interval;
  at = 0;
  every_seconds = pos 3600;
  time_of_day = [];
  weekday = pos 0;
  cron = [];
  target = record { tool = codes "zcr521_status"; args = [] };
  retry_count = pos 0;
  retry_delay_seconds = pos 30;
  created_at = 1;
  next_run_at = 99 * hour_ns;
  last_run_at = 0;
  last_result = done "null" "";
  run_count = 0;
}

abbrev scheduler : Scheduler
scheduler = record {
  loaded = true;
  schedules = (codes "a", hourly) ∷ [];
  disk = (codes "a", codes "a") ∷ [];
  signalled = false;
  started = [];
}

utc-DaysAreShort : DaysAreShort utc (100 * hour_ns)
utc-DaysAreShort h m h23 m59 = omega arith

utc-WeekdaysCome : WeekdaysCome utc
utc-WeekdaysCome w t h = ((w + 7 - (t / day_ns + 4) % 7) % 7, omega arith, omega arith)

trigger_due_schedules-nearest_later_example :
    (st' : Scheduler) × (trigger_due_schedules env scheduler ≡ some st')
    × ((nearest_schedule_time st'.schedules ≡ none)
        ⊎ ((t : ℕ) × (nearest_schedule_time st'.schedules ≡ some t) × (100 * hour_ns < t)))
trigger_due_schedules-nearest_later_example =
    trigger_due_schedules-nearest_later env scheduler utc-DaysAreShort utc-WeekdaysCome
      ((3600, refl, omega arith, omega arith), tt)

abbrev deletion : OpsRequest
deletion = record {
  tool = codes "zcr521_schedule";
  args = (codes "action", text (codes "remove")) ∷ (codes "id", text (codes "a")) ∷ [];
}

schedule_operation-promised_example :
    Agrees scheduler
      (promised_change env deletion (view_of scheduler))
      (schedule_operation env deletion scheduler)
schedule_operation-promised_example = schedule_operation-promised env deletion scheduler refl
