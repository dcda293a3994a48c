-- ===== src/Schedule/Parse.antt =====
-- parseSchedule of internal/ops/schedule.go; `none` is an error. The arguments are those of
-- internal/ops/args.go.
use zcr521_ai_mcp.Ops.Naming.{OpsRequest, normalize_tool}
use zcr521_ai_mcp.Ops.Outcome.{fail, Outcome}
use zcr521_ai_mcp.Ops.Values.{
  Value, Arg, ok, err, text, object, arg_optional_string, members_map, arg_string, arg_int64,
  arg_bool,
}
use zcr521_ai_mcp.Schedule.Cron.{Calendar, Answer, valid_time_of_day, next_cron_time}
use zcr521_ai_mcp.Schedule.Data.{
  Kind, Schedule, Next, once, at_time, schedule_next, safe_schedule_id, interval, daily, weekly,
  cron, boot, network, charging,
}
use zcr521_ai_mcp.Common.{
  [], ◌∷◌, ℕ, Map, Option, Text, ℤ, List, Bool, codes, some, lookup, if◌then◌else◌, none, and_then,
  is_empty, int_lt, ltb, ◌||◌, pos, max_int64, text_eq, negsuc, true,
}

-- What a call meets: the clock, a random id, the local calendar, strings.ToLower, time.Parse of
-- RFC 3339, a value through JSON and back, a schedule in JSON and from it, and whether the file system
-- takes the directories, a write and a removal.
pub record Env : Type 0 where
  pub now : ℕ
  pub random : Text
  pub calendar : Calendar
  pub lower : Text → Text
  pub rfc3339 : Text → Option ℕ
  pub json_clone : Value → Value
  pub encode : Schedule → Text
  pub decode : Text → Option Schedule
  pub dirs : Bool
  pub writes : Bool
  pub removes : Bool

abbrev pub kinds : Map Kind
kinds =
    (codes "once", once)
    ∷ (codes "interval", interval)
    ∷ (codes "daily", daily)
    ∷ (codes "weekly", weekly)
    ∷ (codes "cron", cron)
    ∷ (codes "boot", boot)
    ∷ (codes "network", network)
    ∷ (codes "charging", charging)
    ∷ []

abbrev pub value {ℓ} : {A : Type ℓ} → Arg A → Option A
value (ok a) = some a
value (err _) = none

-- A value and no error, or the fallback of Go's zero value.
abbrev pub text_or_empty : Arg Text → Text
text_or_empty (ok s) = s
text_or_empty (err _) = []

-- copyArgs
unfoldable pub copy_args : (Value → Value) → Map Value → Map Value
copy_args clone [] = []
copy_args clone ((key, v) ∷ rest) = (key, clone v) ∷ copy_args clone rest

-- A target that is a command of the shell.
abbrev pub command_target : Option Value → Option (Text × Map Value)
command_target (some (text command)) =
    if is_empty command
    then none
    else some (
      codes "zcr521_shell",
      (codes "action", text (codes "exec")) ∷ (codes "command", text command) ∷ [],
    )
command_target _ = none

abbrev pub tool_target : Env → Text → Option Value → Option (Text × Map Value)
tool_target env tool none = some (tool, [])
tool_target env tool (some (object members)) =
    some (tool, copy_args env.json_clone (members_map members))
tool_target env tool (some _) = none

abbrev pub target_of : Env → Map Value → Arg Text → Option (Text × Map Value)
target_of env args (err _) = command_target (lookup (codes "command") args)
target_of env args (ok tool) = tool_target env tool (lookup (codes "targetArgs") args)

-- An integer from `low` to `high`.
abbrev pub in_range : ℤ → ℤ → Arg ℤ → Option ℤ
in_range low high (ok n) = if int_lt n low || int_lt high n then none else some n
in_range low high (err _) = none

abbrev pub future : ℕ → Option ℕ → Option ℕ
future now none = none
future now (some t) = if ltb now t then some t else none

abbrev pub valid_time : Arg Text → Option Text
valid_time (ok s) = if valid_time_of_day s then some s else none
valid_time (err _) = none

abbrev pub valid_cron : Env → Arg Text → Option Text
valid_cron env (err _) = none
valid_cron env (ok s) = and_then (value_of (next_cron_time env.calendar s env.now)) λ _. some s
  where
    value_of : Answer ℕ → Option ℕ
    value_of (Answer.ok t) = some t
    value_of (Answer.err _) = none

-- The `switch` on the kind.
unfoldable pub with_kind : Env → Map Value → Kind → Schedule → Option Schedule
with_kind env args once s =
    and_then (value (arg_string args (codes "at" ∷ [])))
      λ raw. and_then (future env.now (env.rfc3339 raw)) λ t. some (record s { at = t })
with_kind env args interval s =
    and_then
      (in_range (pos 1) (pos max_int64)
        (arg_int64 args (pos 0) (codes "everySeconds" ∷ codes "intervalSeconds" ∷ [])))
      λ n. some (record s { every_seconds = n })
with_kind env args daily s =
    and_then (valid_time (arg_string args (codes "time" ∷ [])))
      λ t. some (record s { time_of_day = t })
with_kind env args weekly s = and_then (valid_time (arg_string args (codes "time" ∷ []))) λ t.
    and_then (in_range (pos 0) (pos 6) (arg_int64 args (negsuc 0) (codes "weekday" ∷ [])))
      λ w. some (record s { time_of_day = t; weekday = w })
with_kind env args cron s =
    and_then (valid_cron env (arg_string args (codes "cron" ∷ codes "expression" ∷ [])))
      λ t. some (record s { cron = t })
with_kind env args _ s = some s

-- `panics` and `unfinished` do not come here: the time of day and the weekday have been checked.
abbrev pub with_next : Schedule → Next → Option Schedule
with_next s (at_time t) = some (record s { next_run_at = t })
with_next s _ = none

abbrev pub when_enabled : Env → Schedule → Option Schedule
when_enabled env s =
    if s.enabled then with_next s (schedule_next env.calendar s env.now) else some s

abbrev pub never_run : Outcome
never_run = record (fail "NEVER_RUN" "" "") { error = "" }

unfoldable pub new_schedule : Env → Text → Text → Bool → Kind → OpsRequest → ℤ → ℤ → Schedule
unfolding fail
new_schedule env id name enabled kind target retries delay = record {
  id = id;
  name = name;
  enabled = enabled;
  type = kind;
  at = 0;
  every_seconds = pos 0;
  time_of_day = [];
  weekday = pos 0;
  cron = [];
  target = target;
  retry_count = retries;
  retry_delay_seconds = delay;
  created_at = env.now;
  next_run_at = 0;
  last_run_at = 0;
  last_result = never_run;
  run_count = 0;
}

abbrev pub id_keys : List Text
id_keys = codes "id" ∷ codes "scheduleId" ∷ []

abbrev pub checked_id : Env → Map Value → Option Text
checked_id env args =
    let id = text_or_empty (arg_optional_string args env.random id_keys) in
    if safe_schedule_id id then some id else none

unfoldable pub parse_schedule : Env → Map Value → Option Schedule
parse_schedule env args = and_then (value (arg_string args (codes "type" ∷ []))) λ kind_text.
    and_then (lookup (normalize_tool env.lower kind_text) kinds) λ kind.
      and_then (checked_id env args) λ id.
        let name = text_or_empty (arg_optional_string args id (codes "name" ∷ [])) in
        and_then (target_of env args (arg_string args (codes "tool" ∷ codes "targetTool" ∷ [])))
          λ (tool, target_args).
            let tool' = normalize_tool env.lower tool in
            if text_eq tool' (codes "zcr521_schedule")
            then none
            else (and_then (value (arg_bool args (codes "enabled") true)) λ enabled.
                and_then
                  (in_range (pos 0) (pos 10)
                    (arg_int64 args (pos 0) (codes "retryCount" ∷ codes "retries" ∷ [])))
                  λ retries.
                    and_then
                      (in_range (pos 1) (pos 86400)
                        (arg_int64 args (pos 30) (codes "retryDelaySeconds" ∷ [])))
                      λ delay.
                        and_then
                          (with_kind env args kind (
                            new_schedule env id name enabled kind
                              (record { tool = tool'; args = target_args }) retries delay))
                          λ s. when_enabled env s)
