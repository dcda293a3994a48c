-- ===== src/Mcp/Statuses.antt =====
-- A task of the manager (internal/tasks/manager.go) as internal/mcpapi/tasks_http.go shows it.
use zcr521_ai_mcp.Mcp.Outcomes.{IsOutput, Bears, of_status-Bears}
use zcr521_ai_mcp.Tasks.Restart.{is_interrupted}
use zcr521_ai_mcp.Mcp.Snapshots.{
  Codec, lacks_times, of_status, extension_task_status, task_result, is_final,
}
use zcr521_ai_mcp.Model.{Result}
use zcr521_ai_mcp.Mcp.Json.{object_of, members_of, string_field}
use zcr521_ai_mcp.Tasks.Data.{
  Status, Task, other, queued, running, succeeded, cancelling, timed_out, cancelled, interrupted,
  failed, terminal, is_terminal,
}
use zcr521_ai_mcp.Ops.Values.{Value, text, boolean, null, members_map}
use zcr521_ai_mcp.Common.{
  [], ◌∷◌, false, true, none, some, String, Option, Text, ℕ, codes, Map, Bool, ◌≡◌, if◌then◌else◌,
  text_eq, ap, lookup, refl, member, is_some, is_empty, arith, ◌||◌,
}

-- The JSON of the fields of a task: its text, its numbers, its times and its result.
pub record TaskJson : Type 0 where
  pub bytes : String → Text
  pub json : String → Value
  pub float : ℕ → Value
  pub time : ℕ → Text
  pub result : Result → Map Value

-- The constants of Status.
abbrev pub status_text : TaskJson → Status → Text
status_text j queued = codes "queued"
status_text j running = codes "running"
status_text j succeeded = codes "succeeded"
status_text j failed = codes "failed"
status_text j timed_out = codes "timed_out"
status_text j cancelling = codes "cancelling"
status_text j cancelled = codes "cancelled"
status_text j interrupted = codes "interrupted"
status_text j (other s) = j.bytes s

abbrev pub result_value : TaskJson → Option Result → Value
result_value j none = null
result_value j (some r) = object_of (j.result r)

-- The members of a task's JSON, by the tags of its fields.
abbrev pub task_members : TaskJson → Task → Map Value
task_members j t =
    (codes "id", text t.id)
    ∷ (codes "tool", text t.tool)
    ∷ (codes "arguments", j.json t.arguments)
    ∷ (codes "status", text (status_text j t.status))
    ∷ (codes "progress", j.float t.progress)
    ∷ (codes "message", text (j.bytes t.message))
    ∷ (codes "heavy", boolean t.heavy)
    ∷ (codes "durable", boolean t.durable)
    ∷ (codes "createdAt", text (j.time t.created_at))
    ∷ (codes "startedAt", text (j.time t.started_at))
    ∷ (codes "updatedAt", text (j.time t.updated_at))
    ∷ (codes "completedAt", text (j.time t.completed_at))
    ∷ (codes "result", result_value j t.result)
    ∷ []

abbrev pub task_value : TaskJson → Task → Value
task_value j t = object_of (task_members j t)

members_map-members_of : (m : Map Value) → members_map (members_of m) ≡ m
unfolding members_map members_of
members_map-members_of [] = refl
members_map-members_of ((k, v) ∷ m) = ap (λ x. (k, v) ∷ x) (members_map-members_of m)

-- The status of a task as the extension has it.
abbrev pub shown_status : Status → Bool → Text
shown_status queued has_result = codes "working"
shown_status running has_result = codes "working"
shown_status cancelling has_result = codes "working"
shown_status succeeded has_result = codes "completed"
shown_status cancelled has_result = codes "cancelled"
shown_status failed has_result = if has_result then codes "completed" else codes "failed"
shown_status timed_out has_result = if has_result then codes "completed" else codes "failed"
shown_status interrupted has_result = codes "failed"
shown_status (other s) has_result = []

abbrev pub is_known : Status → Bool
is_known (other s) = false
is_known _ = true

module _ (lib : Codec) (j : TaskJson) (poll : ℕ) (t : Task) where
  abbrev seen : Status → Option Result → Map Value
  seen s o = task_members j (record t { status = s; result = o })

  known-Bears :
      (s : Status) (o : Option Result) (id : Text)
      → is_known s ≡ true
      → lacks_times (seen s o) ≡ false
      → IsOutput lib (some (result_value j o))
      → Bears
          (shown_status s (is_some o))
          (of_status lib (seen s o) id poll (extension_task_status (status_text j s)))
  unfolding extension_task_status member text_eq lookup string_field
  known-Bears queued o id k times p =
      of_status-Bears lib (seen queued o) id poll (codes "working") times p
  known-Bears running o id k times p =
      of_status-Bears lib (seen running o) id poll (codes "working") times p
  known-Bears cancelling o id k times p =
      of_status-Bears lib (seen cancelling o) id poll (codes "working") times p
  known-Bears succeeded o id k times p =
      of_status-Bears lib (seen succeeded o) id poll (codes "completed") times p
  known-Bears cancelled o id k times p =
      of_status-Bears lib (seen cancelled o) id poll (codes "cancelled") times p
  known-Bears interrupted o id k times p =
      of_status-Bears lib (seen interrupted o) id poll (codes "failed") times p
  known-Bears failed none id k times p =
      of_status-Bears lib (seen failed none) id poll (codes "completed") times p
  known-Bears failed (some r) id k times p =
      of_status-Bears lib (seen failed (some r)) id poll (codes "completed") times p
  known-Bears timed_out none id k times p =
      of_status-Bears lib (seen timed_out none) id poll (codes "completed") times p
  known-Bears timed_out (some r) id k times p =
      of_status-Bears lib (seen timed_out (some r)) id poll (codes "completed") times p
  known-Bears (other s) o id k times p = ground arith

  result_value-IsOutput :
      ((r : Result) → lib.round_trip (object_of (j.result r)) ≡ some (object_of (j.result r)))
      → (o : Option Result) → IsOutput lib (some (result_value j o))
  result_value-IsOutput same none = tt
  result_value-IsOutput same (some r) = same r

  -- A task of the manager with an id and times, whose JSON and the JSON of whose result are read back
  -- as they were: the extension shows it as `working` while it is queued, running or being cancelled,
  -- as `completed` once it has succeeded, or has failed or timed out with a result, as `cancelled`, and
  -- as `failed` if there is no result or it was interrupted; and what the extension takes for the end
  -- of a task is that it has ended or was interrupted.
  pub task_result-shown :
      is_known t.status ≡ true
      → is_empty t.id ≡ false
      → (is_empty (j.time t.created_at) || is_empty (j.time t.updated_at)) ≡ false
      → lib.round_trip (task_value j t) ≡ some (task_value j t)
      → ((r : Result) → lib.round_trip (object_of (j.result r)) ≡ some (object_of (j.result r)))
      → Bears (shown_status t.status (is_some t.result)) (task_result lib (task_value j t) poll)
        × (is_final (some (shown_status t.status (is_some t.result)))
            ≡ (terminal t || is_interrupted t.status))
  unfolding task_result terminal member text_eq lookup string_field
  task_result-shown known named timed same result_same = (
    rw (same, members_map-members_of (task_members j t), named)
        (known-Bears t.status t.result t.id known timed
          (result_value-IsOutput result_same t.result)),
    finals t.status t.result known,
  )
    where
      finals :
          (s : Status) (o : Option Result)
          → is_known s ≡ true
          → is_final (some (shown_status s (is_some o))) ≡ (is_terminal s || is_interrupted s)
      finals queued o k = refl
      finals running o k = refl
      finals cancelling o k = refl
      finals succeeded o k = refl
      finals cancelled o k = refl
      finals interrupted o k = refl
      finals failed none k = refl
      finals failed (some r) k = refl
      finals timed_out none k = refl
      finals timed_out (some r) k = refl
      finals (other s) o k = ground arith
