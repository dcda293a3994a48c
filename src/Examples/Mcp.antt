-- ===== src/Examples/Mcp.antt =====
-- Requests of the tasks extension (internal/mcpapi/tasks_http.go) to a backend that counts its calls.
use zcr521_ai_mcp.Mcp.Outcomes.{Bears}
use zcr521_ai_mcp.Transfer.Syntax.{trim_space}
use zcr521_ai_mcp.Tasks.Restart.{is_interrupted}
use zcr521_ai_mcp.Mcp.Json.{object_of, done, members_of, string_field}
use zcr521_ai_mcp.Mcp.Snapshots.{
  Codec, task_result, task_terminal, is_final, extension_task_status, with_outcome,
}
use zcr521_ai_mcp.Mcp.Guards.{AnswersId, MayReach, dispatch_guarded}
use zcr521_ai_mcp.Mcp.Stream.{stream_events}
use zcr521_ai_mcp.Mcp.Rpc.{
  Header, RpcRequest, admit, RpcResponse, protocol_current, decoded, is_current_task_request,
  has_tasks_capability, validate_task_routing_headers, error_response, Method,
}
use zcr521_ai_mcp.Mcp.Events.{WellSent, stream_events-WellSent}
use zcr521_ai_mcp.Mcp.Statuses.{TaskJson, task_value, task_result-shown}
use zcr521_ai_mcp.Tasks.Data.{Task, timed_out, terminal}
use zcr521_ai_mcp.Mcp.Handler.{TasksHandler, TaskClient, dispatch, run_method, respond}
use zcr521_ai_mcp.Ops.Values.{Value, text, null, integer, members_map}
use zcr521_ai_mcp.Common.{
  [], ◌∷◌, codes, ℕ, List, ◌+◌, some, Text, none, if◌then◌else◌, true, false, pos, ◌≡◌, ℤ, refl,
  ◌||◌, ◌⊎◌, leb, Map, text_eq, lookup, member,
}

abbrev lib : Codec
lib = record {
  round_trip = λ v. some v;
  tool_output = λ v. none;
  version = codes "1";
  quote = λ s. s;
}

abbrev running_json : Value
running_json = object_of (
    (codes "id", text (codes "a"))
    ∷ (codes "status", text (codes "running"))
    ∷ (codes "createdAt", text (codes "t0"))
    ∷ (codes "updatedAt", text (codes "t1"))
    ∷ [])

abbrev ended_json : Value
ended_json = object_of (
    (codes "id", text (codes "a"))
    ∷ (codes "status", text (codes "succeeded"))
    ∷ (codes "createdAt", text (codes "t0"))
    ∷ (codes "updatedAt", text (codes "t2"))
    ∷ [])

-- A task that has ended once it was read twice.
abbrev client : TaskClient ℕ
client = record {
  task_get = λ id n. (n + 1, done (if leb 2 n then ended_json else running_json));
  task_update = λ id progress message n. (n + 1, done null);
  task_cancel = λ id n. (n + 1, done null);
}

abbrev handler : TasksHandler ℕ
handler = record {
  client = some client;
  caller = none;
  poll_interval = pos 0;
  codec = lib;
  float_bits = λ v. done 0;
  lower = λ s. s;
  tool_call_value = λ r. [];
}

abbrev header : Header
header = record {
  protocol_version = protocol_current;
  mcp_method = codes "tasks/get";
  mcp_name = codes "a";
  accept = codes "text/event-stream";
}

abbrev meta : Value
meta = object_of (
    (
      codes "io.modelcontextprotocol/clientCapabilities",
      object_of (
          (
            codes "extensions",
            object_of ((codes "io.modelcontextprotocol/tasks", object_of []) ∷ []),
          )
          ∷ []),
    )
    ∷ [])

abbrev request : RpcRequest
request = record {
  jsonrpc = codes "2.0";
  id = codes "1";
  method = codes "tasks/get";
  params = decoded ((codes "taskId", text (codes "a")) ∷ (codes "_meta", meta) ∷ []);
}

backend_asked : (dispatch handler client header true request 0).0 ≡ 1
unfolding dispatch admit is_current_task_request has_tasks_capability validate_task_routing_headers
    run_method text_eq trim_space lookup members_map members_of
backend_asked = refl

abbrev ticks : List (ℕ → ℕ)
ticks = (λ n. n) ∷ (λ n. n) ∷ (λ n. n) ∷ []

abbrev encode : RpcResponse → Text
encode r = if task_terminal r.result then codes "ended" else codes "running"

dispatch_guarded_example :
    AnswersId (codes "1") (dispatch handler client header true request 0).1
    × ((((dispatch handler client header true request 0).0 ≡ 0)
          × ((code : ℤ) × ((dispatch handler client header true request 0).1
                ≡ error_response (codes "1") code none)))
        ⊎ ((m : Method) × (params : Map Value) × MayReach header true request m params
            × (dispatch handler client header true request 0 ≡ (
                let (st', answer) = run_method handler client m params 0 in
                (st', respond handler (codes "1") params answer)))))
dispatch_guarded_example = dispatch_guarded handler client header true request 0

first_fine : (dispatch handler client header true request 0).1.error ≡ none
unfolding dispatch admit is_current_task_request has_tasks_capability validate_task_routing_headers
    run_method text_eq trim_space lookup members_map members_of task_result string_field
    extension_task_status member with_outcome
first_fine = refl

-- The second read finds the task ended.
stream_events-WellSent_example :
    WellSent 1
      (stream_events handler client encode header request ticks
        (dispatch handler client header true request 0).1
        1).1
stream_events-WellSent_example =
    stream_events-WellSent handler client encode header request ticks
      (dispatch handler client header true request 0).1 1 first_fine

abbrev task_json : TaskJson
task_json = record {
  bytes = λ s. [];
  json = λ s. null;
  float = λ x. integer (pos x);
  time = λ n. codes "t";
  result = λ r. [];
}

abbrev timed_out_task : Task
timed_out_task = record {
  id = codes "a";
  tool = codes "shell";
  arguments = "{}";
  status = timed_out;
  progress = 0;
  message = "";
  heavy = false;
  durable = true;
  created_at = 1;
  started_at = 1;
  updated_at = 2;
  completed_at = 2;
  result = none;
}

-- A task that timed out without a result has failed.
task_result-shown_example :
    Bears (codes "failed") (task_result lib (task_value task_json timed_out_task) 500)
    × (is_final (some (codes "failed")) ≡ (terminal timed_out_task || is_interrupted timed_out))
unfolding members_of
task_result-shown_example =
    task_result-shown lib task_json 500 timed_out_task refl refl refl refl (λ r. refl)
