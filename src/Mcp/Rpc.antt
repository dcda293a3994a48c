-- ===== src/Mcp/Rpc.antt =====
-- The requests and responses of internal/mcpapi/tasks_http.go and the checks that dispatch makes before
-- it asks the backend. The messages of the errors are not modelled.
use zcr521_ai_mcp.Transfer.Syntax.{trim_space}
use zcr521_ai_mcp.Mcp.Json.{map_or_nil, or_empty, as_text, as_map}
use zcr521_ai_mcp.Ops.Values.{Value, object}
use zcr521_ai_mcp.Common.{
  [], ◌∷◌, Map, Text, ℤ, Option, Bool, ℕ, codes, negsuc, some, is_empty, false, text_eq, not, ◌&&◌,
  if◌then◌else◌, none, true, lookup, ◌||◌, pos, ◌==◌,
}

-- The bytes of the params: none or null, an object, or what is no object.
pub data Params : Type 0 where
  no_params undecodable : Params
  decoded : Map Value → Params

pub record RpcRequest : Type 0 where
  pub jsonrpc : Text
  pub id : Text
  pub method : Text
  pub params : Params

pub record RpcError : Type 0 where
  pub code : ℤ
  pub details : Option Text

-- A response; `null_result` is a result that is a nil map, which is encoded as null.
pub record RpcResponse : Type 0 where
  pub jsonrpc : Text
  pub id : Text
  pub result : Option (Map Value)
  pub null_result : Bool
  pub error : Option RpcError

-- The headers that the handler reads.
pub record Header : Type 0 where
  pub protocol_version : Text
  pub mcp_method : Text
  pub mcp_name : Text
  pub accept : Text

abbrev pub protocol_current : Text
protocol_current = codes "2026-07-28"

abbrev pub invalid_request : ℤ
invalid_request = negsuc 32599

abbrev pub method_not_found : ℤ
method_not_found = negsuc 32600

abbrev pub invalid_params : ℤ
invalid_params = negsuc 32601

abbrev pub internal_error : ℤ
internal_error = negsuc 32602

abbrev pub parse_error : ℤ
parse_error = negsuc 32699

abbrev pub code_header_mismatch : ℤ
code_header_mismatch = negsuc 32019

abbrev pub code_missing_required_client_capability : ℤ
code_missing_required_client_capability = negsuc 32020

abbrev pub blank_response : Text → RpcResponse
blank_response id = record {
  jsonrpc = codes "2.0";
  id = id;
  result = none;
  null_result = false;
  error = none;
}

abbrev pub error_response : Text → ℤ → Option Text → RpcResponse
error_response id code details = record (blank_response id) {
  error = some (record { code = code; details = details });
}

abbrev pub params_map : Params → Option (Map Value)
params_map no_params = some []
params_map undecodable = none
params_map (decoded m) = some m

-- The version of `_meta`, under its key or the one of early clients.
abbrev pub meta_version : Map Value → Text
meta_version meta =
    let version =
      or_empty (as_text (lookup (codes "io.modelcontextprotocol/protocolVersion") meta)) in
    if is_empty version then or_empty (as_text (lookup (codes "protocolVersion") meta)) else version

abbrev pub has_version : Option (Map Value) → Bool
has_version none = false
has_version (some meta) = text_eq (meta_version meta) protocol_current

unfoldable pub is_current_task_request : Header → Map Value → Bool
is_current_task_request header params =
    text_eq (trim_space header.protocol_version) protocol_current
    || has_version (as_map (lookup (codes "_meta") params))

abbrev pub is_object : Option Value → Bool
is_object (some (object _)) = true
is_object _ = false

unfoldable pub has_tasks_capability : Map Value → Bool
has_tasks_capability params =
    let meta = map_or_nil (lookup (codes "_meta") params) in
    let capabilities =
      map_or_nil (lookup (codes "io.modelcontextprotocol/clientCapabilities") meta) in
    let extensions = map_or_nil (lookup (codes "extensions") capabilities) in
    is_object (lookup (codes "io.modelcontextprotocol/tasks") extensions)

-- A header that is there and is what it should be.
abbrev pub is_stated : Text → Text → Bool
is_stated header wanted = not (is_empty (trim_space header)) && text_eq (trim_space header) wanted

-- validateTaskRoutingHeaders; false is an error.
unfoldable pub validate_task_routing_headers : Header → Text → Text → Bool
validate_task_routing_headers header method name =
    is_stated header.mcp_method method && (is_empty name || is_stated header.mcp_name name)

pub data Method : Type 0 where
  tasks_get tasks_update tasks_cancel tools_call : Method

abbrev pub methods : Map Method
methods =
    (codes "tasks/get", tasks_get)
    ∷ (codes "tasks/update", tasks_update)
    ∷ (codes "tasks/cancel", tasks_cancel)
    ∷ (codes "tools/call", tools_call)
    ∷ []

abbrev pub task_id : Map Value → Text
task_id params = or_empty (as_text (lookup (codes "taskId") params))

abbrev pub tool_name : Map Value → Text
tool_name params = or_empty (as_text (lookup (codes "name") params))

abbrev pub name_of : Method → Map Value → Text
name_of tools_call params = tool_name params
name_of _ params = task_id params

-- A request that the checks let through, or the code of the error.
pub data Admission : Type 0 where
  admitted : Method → Map Value → Admission
  refused : ℤ → Admission

abbrev pub admit_method : Header → Bool → Text → Map Value → Option Method → Admission
admit_method header validate method params none = refused method_not_found
admit_method header validate method params (some m) =
    if not (has_tasks_capability params)
    then refused code_missing_required_client_capability
    else if validate && not (validate_task_routing_headers header method (name_of m params))
    then refused code_header_mismatch
    else admitted m params

abbrev pub admit_params : Header → Bool → Text → Option (Map Value) → Admission
admit_params header validate method none = refused invalid_params
admit_params header validate method (some params) =
    if is_current_task_request header params
    then admit_method header validate method params (lookup method methods)
    else refused method_not_found

unfoldable pub admit : Header → Bool → RpcRequest → Admission
admit header validate r =
    if text_eq r.jsonrpc (codes "2.0") && not (is_empty r.method)
    then admit_params header validate r.method (params_map r.params)
    else refused invalid_request

unfoldable pub rpc_http_status : RpcResponse → ℕ
rpc_http_status r = status_of r.error
  where
    status_of : Option RpcError → ℕ
    status_of none = 200
    status_of (some e) = status_of_code e.code
      where
        status_of_code : ℤ → ℕ
        status_of_code (pos _) = 200
        status_of_code (negsuc n) = if n == 32020 || n == 32019 then 400 else 200
