-- ===== src/Schedule/Map.antt =====
-- The operations of internal/ops/schedule.go against their abstract view: a partial function from ids
-- to schedules, of which an operation changes one place at most.
use zcr521_ai_mcp.Ops.Naming.{OpsRequest, action_of}
use zcr521_ai_mcp.Schedule.Store.{
  Scheduler, save, remove, Reply, persist, actions, on_schedule, Action, create_one, act,
  schedule_operation, ensure_loaded, updated, update_one, enabled_at, act_known, disabled,
  after_dirs, load_files, named, view,
}
use zcr521_ai_mcp.Schedule.Data.{
  Schedule, Next, at_time, schedule_next, failed, time_or_zero, panics, unfinished,
}
use zcr521_ai_mcp.Schedule.Parse.{Env, value, parse_schedule, id_keys}
use zcr521_ai_mcp.Ops.Values.{Value, arg_string}
use zcr521_ai_mcp.Common.{
  Text, if◌then◌else◌, Option, lookup, text_eq, some, Map, Bool-cases, none, ◌≡◌, inl,
  lookup-insert, lookup-erase, refl, codes, inr, true, ap, Bool, false, String, ◌∷◌, and_then,
  if_both,
}

abbrev pub View : Type 0
View = Text → Option Schedule

abbrev pub view_of : Scheduler → View
view_of st id = lookup id st.schedules

pub data Change : Type 0 where
  nothing : Change
  put : Text → Schedule → Change
  drop : Text → Change

abbrev pub apply : Change → View → View
apply nothing v j = v j
apply (put id s) v j = if text_eq id j then some s else v j
apply (drop id) v j = if text_eq id j then none else v j

abbrev if_absent : Schedule → Option Schedule → Change
if_absent s none = put s.id s
if_absent s (some _) = nothing

abbrev create_change : View → Option Schedule → Change
create_change v none = nothing
create_change v (some s) = if_absent s (v s.id)

abbrev update_change : Option Schedule → Change
update_change none = nothing
update_change (some s) = put s.id s

-- The change of the schedule that an id names. `none` is no change: the operation does not return.
abbrev found_change : View → (Text → Schedule → Option Change) → Option Text → Option Change
found_change v f none = some nothing
found_change v f (some id) = of_schedule (v id)
  where
    of_schedule : Option Schedule → Option Change
    of_schedule none = some nothing
    of_schedule (some s) = f id s

-- An enabled schedule has the next time that scheduleNext gives, the zero time if there is none.
abbrev enabling : Text → Schedule → Next → Option Change
enabling id s (at_time t) = some (put id (record s { enabled = true; next_run_at = t }))
enabling id s failed = some (put id (record s { enabled = true; next_run_at = 0 }))
enabling id s panics = none
enabling id s unfinished = none

-- What the actions promise of the abstract view, by their names.
abbrev pub promised : Env → Map Value → View → Text → Option Change
promised env args v name =
    let is : String → Bool = λ action. text_eq (codes action) name in
    let of_id =
      λ (f : Text → Schedule → Option Change). found_change v f (value (arg_string args id_keys)) in
    if is "list"
    then some nothing
    else if is "get"
    then some nothing
    else if is "history"
    then some nothing
    else if is "create"
    then some (create_change v (parse_schedule env args))
    else if is "update"
    then some (update_change (updated env args))
    else if is "remove"
    then of_id (λ id s. some (drop id))
    else if is "delete"
    then of_id (λ id s. some (drop id))
    else if is "enable"
    then of_id (λ id s. enabling id s (schedule_next env.calendar s env.now))
    else if is "disable"
    then of_id (λ id s. some (put id (record s { enabled = false; next_run_at = 0 })))
    else some nothing

abbrev promised_named : Env → OpsRequest → View → Option Text → Option Change
promised_named env r v none = some nothing
promised_named env r v (some name) = if env.dirs then promised env r.args v name else some nothing

abbrev pub promised_change : Env → OpsRequest → View → Option Change
promised_change env r v = promised_named env r v (value (action_of env.lower r (codes "list")))

abbrev Refines : Scheduler → Change → Scheduler × Reply → Type 0
Refines st c after = (j : Text) → view_of after.0 j ≡ apply c (view_of st) j

save-Refines :
    (env : Env) (id : Text) (s : Schedule) (st : Scheduler)
    → Refines st (put id s) (save env id s st)
unfolding save persist
save-Refines env id s st j = elim (Bool-cases env.writes) [
  | inl hit ↦ rw hit (lookup-insert id j s st.schedules)
  | inr miss ↦ rw miss (lookup-insert id j s st.schedules)
]

remove-Refines : (env : Env) (id : Text) (st : Scheduler) → Refines st (drop id) (remove env id st)
unfolding remove
remove-Refines env id st j = elim (Bool-cases env.removes) [
  | inl hit ↦ rw hit (lookup-erase id j st.schedules)
  | inr miss ↦ rw miss (lookup-erase id j st.schedules)
]

-- An operation that returns makes the change; one that does not is promised not to.
abbrev pub Agrees : Scheduler → Option Change → Option (Scheduler × Reply) → Type 0
Agrees st none none = Unit {0}
Agrees st none (some after) = ⊥
Agrees st (some c) none = ⊥
Agrees st (some c) (some after) = (j : Text) → view_of after.0 j ≡ apply c (view_of st) j

on_schedule-Agrees :
    (st : Scheduler) (f : Text → Schedule → Option (Scheduler × Reply))
    (g : Text → Schedule → Option Change)
    → ((id : Text) (s : Schedule) → Agrees st (g id s) (f id s))
    → (id : Option Text) → Agrees st (found_change (view_of st) g id) (on_schedule st id f)
on_schedule-Agrees st f g h none = λ j. refl
on_schedule-Agrees st f g h (some id) = of_schedule (lookup id st.schedules) refl
  where
    of_schedule :
        (found : Option Schedule)
        → lookup id st.schedules ≡ found
        → Agrees st (found_change (view_of st) g (some id)) (on_schedule st (some id) f)
    of_schedule none e = rw e (λ j. refl)
    of_schedule (some s) e = rw e (h id s)

create_one-Refines :
    (env : Env) (st : Scheduler) (o : Option Schedule)
    → Refines st (create_change (view_of st) o) (create_one env st o)
create_one-Refines env st none j = refl
create_one-Refines env st (some s) j = of_found (lookup s.id st.schedules) refl
  where
    of_found :
        (found : Option Schedule)
        → lookup s.id st.schedules ≡ found
        → view_of (create_one env st (some s)).0 j
          ≡ apply (create_change (view_of st) (some s)) (view_of st) j
    of_found none e = rw e (save-Refines env s.id s st j)
    of_found (some _) e = rw e refl

found_nothing :
    (st : Scheduler) (f : Text → Schedule → Option (Scheduler × Reply))
    → ((id : Text) (s : Schedule) → Agrees st (some nothing) (f id s))
    → (id : Option Text) → Agrees st (some nothing) (on_schedule st id f)
found_nothing st f h none = λ j. refl
found_nothing st f h (some id) = of_schedule (lookup id st.schedules) refl
  where
    of_schedule :
        (found : Option Schedule)
        → lookup id st.schedules ≡ found
        → Agrees st (some nothing) (on_schedule st (some id) f)
    of_schedule none e = rw e (λ j. refl)
    of_schedule (some s) e = rw e (h id s)

update_one-Refines :
    (env : Env) (st : Scheduler) (o : Option Schedule)
    → Refines st (update_change o) (update_one env st o)
update_one-Refines env st none j = refl
update_one-Refines env st (some s) j = save-Refines env s.id s st j

enabling-Agrees :
    (env : Env) (st : Scheduler) (id : Text) (s : Schedule) (n : Next)
    → Agrees st (enabling id s n) (
        and_then
          (and_then (time_or_zero n) λ t. some (record s { enabled = true; next_run_at = t }))
          λ s'. some (save env id s' st))
enabling-Agrees env st id s (at_time t) =
    save-Refines env id (record s { enabled = true; next_run_at = t }) st
enabling-Agrees env st id s failed =
    save-Refines env id (record s { enabled = true; next_run_at = 0 }) st
enabling-Agrees env st id s panics = tt
enabling-Agrees env st id s unfinished = tt

-- What relates both branches of two tests of one condition.
if_both2 {ℓ κ μ} :
    {A : Type ℓ} {B : Type κ} (P : A → B → Type μ) (b : Bool) {x x' : A} {y y' : B}
    → P x y
    → P x' y'
    → P (if b then x else x') (if b then y else y')
if_both2 P true p q = p
if_both2 P false p q = q

promised-Agrees :
    (env : Env) (args : Map Value) (name : Text) (st : Scheduler)
    → Agrees st (promised env args (view_of st) name) (act_known env args (lookup name actions) st)
unfolding lookup act enabled_at
promised-Agrees env args name st =
    let P : Option Change → Option Action → Type 0 = λ c a. Agrees st c (act_known env args a st) in
    let is : String → Bool = λ action. text_eq (codes action) name in
    let id = value (arg_string args id_keys) in
    let drops = on_schedule-Agrees st _ _ (λ id s. remove-Refines env id st) id in
    let runs =
      found_nothing st (λ id s. some (record st { started = id ∷ st.started }, named id))
        (λ id s j. refl) id in
    let views = found_nothing st (λ id s. some (st, view s)) (λ id s j. refl) id in
    if_both2 P (is "list") (λ j. refl)
      (if_both2 P (is "get") views (
        if_both2 P (is "history")
          (found_nothing st
            (λ id s. some (st, Reply.history id s.last_run_at s.run_count s.last_result))
            (λ id s j. refl) id)
          (if_both2 P (is "create") (create_one-Refines env st (parse_schedule env args)) (
            if_both2 P (is "update") (update_one-Refines env st (updated env args)) (
              if_both2 P (is "remove") drops (
                if_both2 P (is "delete") drops (
                  if_both2 P (is "enable")
                    (on_schedule-Agrees st _ _
                      (λ id s. enabling-Agrees env st id s (schedule_next env.calendar s env.now))
                      id)
                    (if_both2 P (is "disable")
                      (on_schedule-Agrees st _ _ (λ id s. save-Refines env id (disabled s) st) id)
                      (if_both (P (some nothing)) (is "run") runs
                        (if_both (P (some nothing)) (is "run_now") runs (λ j. refl)))))))))))

ensure_loaded_same :
    (env : Env) (st : Scheduler) → st.loaded ≡ true → ensure_loaded env st ≡ some st
unfolding ensure_loaded
ensure_loaded_same env st h =
    ap
      (λ b.
        if b
        then some st
        else (and_then (load_files env st.disk st.schedules)
            λ m. some (record st { loaded = true; schedules = m })))
      h

-- Once the schedules are loaded, an operation of the tool, seen as a partial function from ids to
-- schedules, makes the change that is promised of its name and no other: create adds the schedule that
-- parseSchedule reads under an id that is free, update sets one under the id given, remove and delete
-- drop one, enable and disable set its flag and its next time, if there is one, and all else, as an
-- action that is unknown or an argument that is refused, changes nothing. A write or a removal that
-- fails does not take the change back. Only enable may not return, exactly where scheduleNext does
-- not.
pub schedule_operation-promised :
    (env : Env) (r : OpsRequest) (st : Scheduler)
    → st.loaded ≡ true
    → Agrees st (promised_change env r (view_of st)) (schedule_operation env r st)
unfolding schedule_operation
schedule_operation-promised env r st h = of_name (value (action_of env.lower r (codes "list")))
  where
    of_name :
        (name : Option Text)
        → Agrees st (promised_named env r (view_of st) name) (after_dirs env r name st)
    of_name none = λ j. refl
    of_name (some name) =
        rw (ensure_loaded_same env st h)
          (if_both2 (Agrees st) env.dirs (promised-Agrees env r.args name st) (λ j. refl))
