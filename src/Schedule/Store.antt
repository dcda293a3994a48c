-- ===== src/Schedule/Store.antt =====
-- scheduleOperation and the files of the schedules of internal/ops/schedule.go. The state is the map in
-- memory, the files by their name without `.json`, the pending signal of the loop and the runs started.
-- The states of the event listeners, which the list answers too, are not modelled. `none` is an
-- operation that does not return: scheduleNext panics or loops for ever, and the lock stays taken.
use zcr521_ai_mcp.Ops.Naming.{OpsRequest, action_of}
use zcr521_ai_mcp.Schedule.Parse.{Env, value, parse_schedule, id_keys}
use zcr521_ai_mcp.Schedule.Data.{Schedule, time_or_zero, safe_schedule_id, schedule_next}
use zcr521_ai_mcp.Ops.Outcome.{Outcome}
use zcr521_ai_mcp.Ops.Values.{Value, arg_string}
use zcr521_ai_mcp.Common.{
  [], ◌∷◌, Bool, List, Text, true, Option, Map, ℕ, if◌then◌else◌, false, some, insert, erase, codes,
  none, lookup, and_then,
}

-- A file that cannot be read or is no schedule is `none` of `decode`.
pub record Scheduler : Type 0 where
  pub loaded : Bool
  pub schedules : Map Schedule
  pub disk : Map Text
  pub signalled : Bool
  pub started : List Text

pub data Refusal : Type 0 where
  bad_argument bad_action not_found already_exists store_failed : Refusal

pub data Reply : Type 0 where
  listing : List Schedule → Reply
  view : Schedule → Reply
  history : Text → ℕ → ℕ → Outcome → Reply
  named : Text → Reply
  refused : Refusal → Reply

-- schedulePath
unfoldable pub file_name : Text → Text
file_name id = if safe_schedule_id id then id else []

unfoldable pub enabled_at : Env → Schedule → Option Schedule
enabled_at env s =
    and_then (time_or_zero (schedule_next env.calendar s env.now))
      λ t. some (record s { enabled = true; next_run_at = t })

abbrev pub disabled : Schedule → Schedule
disabled s = record s { enabled = false; next_run_at = 0 }

abbrev loaded_as : Env → Schedule → Option Schedule
loaded_as env s = if s.enabled then enabled_at env s else some s

abbrev pub load_schedule : Env → Option Schedule → Map Schedule → Option (Map Schedule)
load_schedule env none m = some m
load_schedule env (some s) m =
    if safe_schedule_id s.id
    then (and_then (loaded_as env s) λ s'. some (insert s.id s' m))
    else some m

unfoldable pub load_files : Env → Map Text → Map Schedule → Option (Map Schedule)
load_files env [] m = some m
load_files env ((_, raw) ∷ files) m =
    and_then (load_schedule env (env.decode raw) m) λ m'. load_files env files m'

-- ensureSchedulesLoaded
unfoldable pub ensure_loaded : Env → Scheduler → Option Scheduler
ensure_loaded env st =
    if st.loaded
    then some st
    else (and_then (load_files env st.disk st.schedules)
        λ m. some (record st { loaded = true; schedules = m }))

-- persistSchedule; `none` is a failed write.
unfoldable pub persist : Env → Schedule → Scheduler → Option Scheduler
persist env s st =
    if env.writes
    then some (record st { disk = insert (file_name s.id) (env.encode s) st.disk })
    else none

-- signalScheduler
abbrev pub signal : Scheduler → Scheduler
signal st = record st { signalled = true }

abbrev pub persisted : Scheduler → Reply → Option Scheduler → Scheduler × Reply
persisted st reply none = (st, refused store_failed)
persisted st reply (some st') = (signal st', reply)

-- A schedule into the map, into its file, and the signal.
unfoldable pub save : Env → Text → Schedule → Scheduler → Scheduler × Reply
save env id s st =
    let st' = record st { schedules = insert id s st.schedules } in
    persisted st' (view s) (persist env s st')

unfoldable pub remove : Env → Text → Scheduler → Scheduler × Reply
remove env id st =
    let st' = record st { schedules = erase id st.schedules } in
    if env.removes
    then (signal (record st' { disk = erase (file_name id) st.disk }), named id)
    else (st', refused store_failed)

pub data Action : Type 0 where
  list get history create update delete enable disable run_now : Action

abbrev pub actions : Map Action
actions =
    (codes "list", list)
    ∷ (codes "get", get)
    ∷ (codes "history", history)
    ∷ (codes "create", create)
    ∷ (codes "update", update)
    ∷ (codes "remove", delete)
    ∷ (codes "delete", delete)
    ∷ (codes "enable", enable)
    ∷ (codes "disable", disable)
    ∷ (codes "run", run_now)
    ∷ (codes "run_now", run_now)
    ∷ []

abbrev pub values {ℓ} : {V : Type ℓ} → Map V → List V
values [] = []
values ((_, v) ∷ m) = v ∷ values m

-- The schedule that parseSchedule gives, under the id that is asked for.
abbrev pub updated : Env → Map Value → Option Schedule
updated env args =
    and_then (parse_schedule env args)
      λ s. and_then (value (arg_string args id_keys)) λ id. some (record s { id = id })

abbrev pub on_schedule :
    Scheduler
    → Option Text
    → (Text → Schedule → Option (Scheduler × Reply))
    → Option (Scheduler × Reply)
on_schedule st none f = some (st, refused bad_argument)
on_schedule st (some id) f = on_found (lookup id st.schedules)
  where
    on_found : Option Schedule → Option (Scheduler × Reply)
    on_found none = some (st, refused not_found)
    on_found (some s) = f id s

abbrev pub create_one : Env → Scheduler → Option Schedule → Scheduler × Reply
create_one env st none = (st, refused bad_argument)
create_one env st (some s) = if_absent (lookup s.id st.schedules)
  where
    if_absent : Option Schedule → Scheduler × Reply
    if_absent none = save env s.id s st
    if_absent (some _) = (st, refused already_exists)

abbrev pub update_one : Env → Scheduler → Option Schedule → Scheduler × Reply
update_one env st none = (st, refused bad_argument)
update_one env st (some s) = save env s.id s st

-- The `switch` on the action.
unfoldable pub act : Env → Map Value → Action → Scheduler → Option (Scheduler × Reply)
act env args list st = some (st, listing (values st.schedules))
act env args get st = on_schedule st (value (arg_string args id_keys)) λ id s. some (st, view s)
act env args history st =
    on_schedule st (value (arg_string args id_keys))
      λ id s. some (st, Reply.history id s.last_run_at s.run_count s.last_result)
act env args create st = some (create_one env st (parse_schedule env args))
act env args update st = some (update_one env st (updated env args))
act env args delete st =
    on_schedule st (value (arg_string args id_keys)) λ id s. some (remove env id st)
act env args enable st =
    on_schedule st (value (arg_string args id_keys))
      λ id s. and_then (enabled_at env s) λ s'. some (save env id s' st)
act env args disable st =
    on_schedule st (value (arg_string args id_keys)) λ id s. some (save env id (disabled s) st)
act env args run_now st =
    on_schedule st (value (arg_string args id_keys))
      λ id s. some (record st { started = id ∷ st.started }, named id)

abbrev pub act_known : Env → Map Value → Option Action → Scheduler → Option (Scheduler × Reply)
act_known env args none st = some (st, refused bad_action)
act_known env args (some a) st = act env args a st

abbrev pub after_dirs : Env → OpsRequest → Option Text → Scheduler → Option (Scheduler × Reply)
after_dirs env r none st = some (st, refused bad_argument)
after_dirs env r (some name) st =
    if env.dirs
    then (and_then (ensure_loaded env st) λ st'. act_known env r.args (lookup name actions) st')
    else some (st, refused store_failed)

unfoldable pub schedule_operation : Env → OpsRequest → Scheduler → Option (Scheduler × Reply)
schedule_operation env r st = after_dirs env r (value (action_of env.lower r (codes "list"))) st
