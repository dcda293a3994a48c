-- ===== src/Mcp/Snapshots.antt =====
-- taskResult and what it uses of internal/mcpapi/tasks_http.go. A result that a tool gave, as the
-- value that model.Result and the SDK encode it to, is a parameter.
use zcr521_ai_mcp.Mcp.Json.{
  object_of, Fallible, map_or_nil, done, fault, string_field, error_of, is_null,
}
use zcr521_ai_mcp.Ops.Values.{Value, text, object, null, integer, members_map}
use zcr521_ai_mcp.Common.{
  [], ◌∷◌, Option, Text, Map, List, ℕ, codes, insert, if◌then◌else◌, some, Bool, member, none, true,
  false, negsuc, text_eq, is_empty, erase, lookup, ◌&&◌, pos, ◌||◌, ◌++◌,
}

-- json.Marshal and json.Unmarshal of a value, and of a value that is read as a model.Result with a
-- code and given as the CallToolResult of it; buildinfo.Version; the verb %q. The words of the
-- errors of encoding/json are left out.
pub record Codec : Type 0 where
  pub round_trip : Value → Option Value
  pub tool_output : Value → Option (Map Value)
  pub version : Text
  pub quote : Text → Text

abbrev pub server_info_key : Text
server_info_key = codes "io.modelcontextprotocol/serverInfo"

abbrev pub server_info : Codec → Value
server_info lib =
    object_of
      ((codes "name", text (codes "zcr521-android-mcp")) ∷ (codes "version", text lib.version) ∷ [])

unfoldable pub complete_result : Codec → Map Value → Map Value
complete_result lib value =
    let value' = insert (codes "resultType") (text (codes "complete")) value in
    let meta =
      insert server_info_key (server_info lib) (map_or_nil (lookup (codes "_meta") value')) in
    insert (codes "_meta") (object_of meta) value'

abbrev pub working_statuses : List Text
working_statuses = codes "queued" ∷ codes "running" ∷ codes "cancelling" ∷ codes "working" ∷ []

abbrev pub completed_statuses : List Text
completed_statuses = codes "succeeded" ∷ codes "completed" ∷ []

abbrev pub failed_statuses : List Text
failed_statuses = codes "failed" ∷ codes "timed_out" ∷ []

unfoldable pub extension_task_status : Text → Option Text
extension_task_status status =
    if member status working_statuses
    then some (codes "working")
    else if member status completed_statuses
    then some (codes "completed")
    else if text_eq status (codes "cancelled")
    then some (codes "cancelled")
    else if member status failed_statuses
    then some (codes "completed")
    else if text_eq status (codes "interrupted")
    then some (codes "failed")
    else if text_eq status (codes "input_required")
    then some (codes "input_required")
    else none

abbrev pub final_statuses : List Text
final_statuses =
    codes "succeeded"
    ∷ codes "failed"
    ∷ codes "timed_out"
    ∷ codes "cancelled"
    ∷ codes "completed"
    ∷ []

-- The field `status` of a value that is read into a struct: null and a missing one are the empty
-- text, and `none` is an error.
abbrev pub status_read : Option Value → Option Text
status_read none = some []
status_read (some null) = some []
status_read (some (text s)) = some s
status_read _ = none

abbrev pub is_final : Option Text → Bool
is_final none = true
is_final (some s) = member s final_statuses

-- taskTerminal, of a result that can be encoded.
unfoldable pub task_terminal : Option (Map Value) → Bool
task_terminal none = false
task_terminal (some r) = is_final (status_read (lookup (codes "status") r))

abbrev pub task_output_result : Codec → Option (Map Value) → Option Value → Fallible (Map Value)
task_output_result lib (some output) v = done (complete_result lib output)
task_output_result lib none (some (object ms)) = done (complete_result lib (members_map ms))
task_output_result lib none (some null) = done (complete_result lib [])
task_output_result lib none _ = error_of (codes "json: cannot unmarshal")

abbrev pub put_result : Map Value → Fallible (Map Value) → Fallible (Map Value)
put_result r (fault e) = fault e
put_result r (done output) = done (insert (codes "result") (object_of output) r)

-- The `switch` on the status, for the source's own fields.
abbrev pub completed_value : Codec → Map Value → Map Value → Option Value → Fallible (Map Value)
completed_value lib source r none =
    done (insert (codes "result") (object_of (complete_result lib [])) r)
completed_value lib source r (some null) =
    done (insert (codes "result") (object_of (complete_result lib [])) r)
completed_value lib source r (some v) =
    put_result r (task_output_result lib (lib.tool_output v) (lib.round_trip v))

abbrev pub error_value : Map Value → Value
error_value source = object_of (
    (codes "code", integer (negsuc 32602))
    ∷ (codes "message", text (string_field source (codes "message" ∷ codes "statusMessage" ∷ [])))
    ∷ [])

abbrev pub requests_value : Option Value → Value
requests_value none = object_of []
requests_value (some v) = v

unfoldable pub with_outcome : Codec → Map Value → Text → Map Value → Fallible (Map Value)
with_outcome lib source status r =
    if text_eq status (codes "completed")
    then completed_value lib source r (lookup (codes "result") source)
    else if text_eq status (codes "failed")
    then done (insert (codes "error") (error_value source) r)
    else if text_eq status (codes "input_required")
    then done
        (insert (codes "inputRequests") (requests_value (lookup (codes "inputRequests") source)) r)
    else done r

abbrev pub with_message : Text → Map Value → Map Value
with_message message r =
    if is_empty message then r else insert (codes "statusMessage") (text message) r

-- A failure without a result is `fault`, not `completed`.
abbrev pub adjusted : Map Value → Text → Text → Text
adjusted source source_status status =
    if member source_status failed_statuses && is_null (lookup (codes "result") source)
    then codes "failed"
    else status

abbrev pub task_fields : Codec → Map Value → Text → Text → ℕ → Map Value
task_fields lib source id status poll = complete_result lib (
    (codes "taskId", text id)
    ∷ (codes "status", text status)
    ∷ (codes "createdAt", text (string_field source (codes "createdAt" ∷ [])))
    ∷ (
      codes "lastUpdatedAt",
      text (string_field source (codes "lastUpdatedAt" ∷ codes "updatedAt" ∷ [])),
    )
    ∷ (codes "ttlMs", null)
    ∷ (codes "pollIntervalMs", integer (pos poll))
    ∷ [])

abbrev pub lacks_times : Map Value → Bool
lacks_times source =
    is_empty (string_field source (codes "createdAt" ∷ []))
    || is_empty (string_field source (codes "lastUpdatedAt" ∷ codes "updatedAt" ∷ []))

abbrev pub of_status : Codec → Map Value → Text → ℕ → Option Text → Fallible (Map Value)
of_status lib source id poll none =
    error_of
      (codes "unsupported task status " ++ lib.quote (string_field source (codes "status" ∷ [])))
of_status lib source id poll (some status) =
    let status' = adjusted source (string_field source (codes "status" ∷ [])) status in
    let message = string_field source (codes "statusMessage" ∷ codes "message" ∷ []) in
    if lacks_times source
    then error_of (codes "task state does not contain required timestamps")
    else with_outcome lib source status'
        (with_message message (task_fields lib source id status' poll))

abbrev pub of_source : Codec → ℕ → Map Value → Fallible (Map Value)
of_source lib poll source =
    let id = string_field source (codes "taskId" ∷ codes "id" ∷ []) in
    if is_empty id
    then error_of (codes "task state does not contain a task ID")
    else of_status lib source id poll
        (extension_task_status (string_field source (codes "status" ∷ [])))

-- The value as a map[string]any: null is the nil map.
abbrev pub read_source : Codec → ℕ → Option Value → Fallible (Map Value)
read_source lib poll (some (object ms)) = of_source lib poll (members_map ms)
read_source lib poll (some null) = of_source lib poll []
read_source lib poll (some _) = error_of (codes "decode task state")
read_source lib poll none = error_of (codes "encode task state")

unfoldable pub task_result : Codec → Value → ℕ → Fallible (Map Value)
task_result lib value poll = read_source lib poll (lib.round_trip value)

-- notificationTask
abbrev pub notification_task : Option (Map Value) → Option (Map Value)
notification_task none = none
notification_task (some r) = some (erase (codes "_meta") (erase (codes "resultType") r))
