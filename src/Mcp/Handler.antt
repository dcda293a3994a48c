-- ===== src/Mcp/Handler.antt =====
-- dispatch, callToolAsTask, ServeHTTP and serveBatch of internal/mcpapi/tasks_http.go, over a backend
-- of any state. A body is what its JSON decodes to.
use zcr521_ai_mcp.Mcp.Snapshots.{task_result, Codec, complete_result}
use zcr521_ai_mcp.Mcp.Json.{
  Fallible, fault, done, error_of, Failure, or_empty, as_text, contains_text,
}
use zcr521_ai_mcp.Model.{Result}
use zcr521_ai_mcp.Mcp.Rpc.{
  Method, Header, task_id, RpcResponse, Admission, blank_response, refused, RpcRequest, tool_name,
  tasks_get, error_response, admit, tasks_update, admitted, tasks_cancel, tools_call,
  invalid_params, internal_error,
}
use zcr521_ai_mcp.Ops.Values.{Value, text, object, boolean, members_map}
use zcr521_ai_mcp.Common.{
  [], ◌∷◌, Text, Option, ℕ, Map, List, codes, if◌then◌else◌, lookup, Bool, some, is_empty, ◌++◌,
  false, insert, ℤ, none, ◌||◌, any, pos, suc, ◌/◌, true,
}

-- A value through TaskGet, TaskUpdate and TaskCancel.
pub record TaskClient (σ : Type 0) : Type 0 where
  pub task_get : Text → σ → σ × Fallible Value
  pub task_update : Text → ℕ → Text → σ → σ × Fallible Value
  pub task_cancel : Text → σ → σ × Fallible Value

-- The handler, with what it uses of strings and encoding/json: a number as the bits of its float64,
-- ToLower, and a tool's result as the CallToolResult that it is encoded to.
pub record TasksHandler (σ : Type 0) : Type 0 where
  pub client : Option (TaskClient σ)
  pub caller : Option (Text → Map Value → σ → σ × Result)
  pub poll_interval : ℤ
  pub codec : Codec
  pub float_bits : Value → Fallible ℕ
  pub lower : Text → Text
  pub tool_call_value : Result → Map Value

abbrev pub map_done {ℓ κ} : {A : Type ℓ} {B : Type κ} → (A → Fallible B) → Fallible A → Fallible B
map_done f (fault e) = fault e
map_done f (done a) = f a

abbrev pub not_a_number : Text
not_a_number =
    codes "progress "
    ++ 0xe5 ∷ 0xbf ∷ 0x85 ∷ 0xe9 ∷ 0xa1 ∷ 0xbb ∷ 0xe6 ∷ 0x98 ∷ 0xaf ∷ 0xe6 ∷ 0x95 ∷ 0xb0 ∷ 0xe5
      ∷ 0xad ∷ 0x97 ∷ []

-- What a method makes of its request: a result, an error, or an error beside a result that is a nil
-- map.
pub data Answer : Type 0 where
  answered : Map Value → Answer
  failed nulled : Failure → Answer

abbrev pub plain : Fallible (Map Value) → Answer
plain (done r) = answered r
plain (fault e) = failed e

abbrev pub or_nulled : Fallible (Map Value) → Answer
or_nulled (done r) = answered r
or_nulled (fault e) = nulled e

abbrev pub is_background : Map Value → Bool
is_background arguments = is_yes (lookup (codes "background") arguments)
  where
    is_yes : Option Value → Bool
    is_yes (some (boolean b)) = b
    is_yes _ = false

abbrev pub after_creation : Fallible (Map Value) → Fallible (Map Value)
after_creation (fault e) = fault e
after_creation (done r) = done (insert (codes "resultType") (text (codes "task")) r)

abbrev pub telling_words : List Text
telling_words =
    codes "required"
    ∷ codes "not found"
    ∷ codes "does not exist"
    ∷ codes "no such file"
    ∷ (0xe4 ∷ 0xb8 ∷ 0x8d ∷ 0xe5 ∷ 0xad ∷ 0x98 ∷ 0xe5 ∷ 0x9c ∷ 0xa8 ∷ [])
    ∷ []

module _ {σ : Type 0} where
  abbrev pub poll_milliseconds : TasksHandler σ → ℕ
  poll_milliseconds h = in_ms h.poll_interval
    where
      in_ms : ℤ → ℕ
      in_ms (pos (suc n)) = suc n / 1000000
      in_ms _ = 500

  abbrev pub then_result :
      (Value → Fallible (Map Value)) → σ × Fallible Value → σ × Fallible (Map Value)
  then_result f (st, r) = (st, map_done f r)

  abbrev pub need_id : Text → σ → σ × Answer → σ × Answer
  need_id id st after =
      if is_empty id then (st, plain (error_of (codes "taskId is required"))) else after

  abbrev pub plainly : σ × Fallible (Map Value) → σ × Answer
  plainly (st, r) = (st, plain r)

  -- The result of taskResult is put into the response also when it is an error.
  abbrev pub shown : TasksHandler σ → σ × Fallible Value → σ × Answer
  shown h (st, fault e) = (st, failed e)
  shown h (st, done v) = (st, or_nulled (task_result h.codec v (poll_milliseconds h)))

  abbrev pub completed : TasksHandler σ → Value → Fallible (Map Value)
  completed h v = done (complete_result h.codec [])

  abbrev pub update_progress :
      TasksHandler σ → TaskClient σ → Text → Map Value → Fallible ℕ → σ → σ × Fallible (Map Value)
  update_progress h c id params (fault e) st = (st, fault e)
  update_progress h c id params (done progress) st =
      then_result (completed h)
        (c.task_update id progress (or_empty (as_text (lookup (codes "message") params))) st)

  -- jsonNumber
  abbrev pub json_number : TasksHandler σ → Option Value → Fallible ℕ
  json_number h none = error_of not_a_number
  json_number h (some v) = h.float_bits v

  abbrev pub update_task :
      TasksHandler σ → TaskClient σ → Text → Map Value → Option Value → σ → σ × Fallible (Map Value)
  update_task h c id params none st =
      update_progress h c id params (json_number h (lookup (codes "progress") params)) st
  update_task h c id params (some (object _)) st = then_result (completed h) (c.task_get id st)
  update_task h c id params (some _) st = (st, error_of (codes "inputResponses must be an object"))

  abbrev pub read_created : TasksHandler σ → Fallible Value → Fallible (Map Value)
  read_created h (fault e) =
      fault (record e { words = codes "durable task was not readable after creation: " ++ e.words })
  read_created h (done v) = after_creation (task_result h.codec v (poll_milliseconds h))

  abbrev pub called : TasksHandler σ → TaskClient σ → σ × Result → σ × Fallible (Map Value)
  called h c (st, result) =
      if is_empty result.task_id
      then (st, done (complete_result h.codec (h.tool_call_value result)))
      else (let (st', state) = c.task_get result.task_id st in (st', read_created h state))

  abbrev pub call_arguments :
      TasksHandler σ
      → TaskClient σ
      → (Text → Map Value → σ → σ × Result)
      → Text
      → Option Value
      → σ
      → σ × Fallible (Map Value)
  call_arguments h c call name (some (object ms)) st =
      if is_background (members_map ms)
      then called h c (call name (members_map ms) st)
      else (st, error_of (codes "task-aware tools/call requires background=true"))
  call_arguments h c call name _ st = (st, error_of (codes "arguments must be an object"))

  unfoldable pub call_tool_as_task :
      TasksHandler σ → TaskClient σ → Map Value → σ → σ × Fallible (Map Value)
  call_tool_as_task h c params st = with_caller h.caller
    where
      with_caller : Option (Text → Map Value → σ → σ × Result) → σ × Fallible (Map Value)
      with_caller none = (st, error_of (codes "task-aware tool caller is not configured"))
      with_caller (some call) =
          if is_empty (tool_name params)
          then (st, error_of (codes "name is required"))
          else call_arguments h c call (tool_name params) (lookup (codes "arguments") params) st

  -- The second `switch` on the method.
  unfoldable pub run_method : TasksHandler σ → TaskClient σ → Method → Map Value → σ → σ × Answer
  run_method h c tasks_get params st =
      need_id (task_id params) st (shown h (c.task_get (task_id params) st))
  run_method h c tasks_update params st = need_id (task_id params) st (
      plainly (update_task h c (task_id params) params (lookup (codes "inputResponses") params) st))
  run_method h c tasks_cancel params st =
      need_id (task_id params) st
        (plainly (then_result (completed h) (c.task_cancel (task_id params) st)))
  run_method h c tools_call params st = plainly (call_tool_as_task h c params st)

  unfoldable pub code_of : TasksHandler σ → Map Value → Failure → ℤ
  code_of h params e =
      if e.not_exist
        || is_empty (task_id params)
        || any (λ part. contains_text part (h.lower e.words)) telling_words
      then invalid_params
      else internal_error

  abbrev pub respond : TasksHandler σ → Text → Map Value → Answer → RpcResponse
  respond h id params (answered r) = record (blank_response id) { result = some r }
  respond h id params (failed e) = error_response id (code_of h params e) (some e.words)
  respond h id params (nulled e) = record (error_response id (code_of h params e) (some e.words)) {
    null_result = true;
  }

  abbrev pub after_admission :
      TasksHandler σ → TaskClient σ → Text → Admission → σ → σ × RpcResponse
  after_admission h c id (refused code) st = (st, error_response id code none)
  after_admission h c id (admitted m params) st =
      let (st', r) = run_method h c m params st in (st', respond h id params r)

  unfoldable pub dispatch :
      TasksHandler σ → TaskClient σ → Header → Bool → RpcRequest → σ → σ × RpcResponse
  dispatch h c header validate r st = after_admission h c r.id (admit header validate r) st
