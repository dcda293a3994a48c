-- ===== src/Service/Data.antt =====
-- The state of Service in internal/service/service.go, what a call of it finds, and convertOps.
use zcr521_ai_mcp.Ops.Naming.{OpsRequest}
use zcr521_ai_mcp.Schema.Specs.{Spec}
use zcr521_ai_mcp.Ops.Background.{BackgroundEnv}
use text.Mathlib.Text.{◌==◌ as str_eq}
use zcr521_ai_mcp.Ops.Values.{Value}
use zcr521_ai_mcp.Ops.Outcome.{Outcome}
use zcr521_ai_mcp.Config.Files
use zcr521_ai_mcp.Ops.Dispatch.{OpsState, Operations}
use zcr521_ai_mcp.Config.Files.{ConfigFile}
use zcr521_ai_mcp.Model.{Artifact, ErrorInfo, Result}
use zcr521_ai_mcp.Schema.Invocation.{InvocationError}
use zcr521_ai_mcp.Tasks.Data.{Manager, Task}
use zcr521_ai_mcp.Tasks.Client
use zcr521_ai_mcp.Config.Data.{Config, Join}
use zcr521_ai_mcp.Common.{
  [], Map, Text, ℕ, List, Bool, String, pos, Option, ℤ, if◌then◌else◌, map, none, some,
}

-- What collectProbe keeps of the two requests that it makes.
pub record Probe : Type 0 where
  pub capability : Outcome
  pub device : Outcome

-- `files` are the configuration files.
pub record Service (σ : Type 0) : Type 0 where
  pub config : Config
  pub files : Map ConfigFile
  pub tasks : Manager
  pub operations : OpsState σ
  pub probe : Option Probe

-- A log's text, with the offset at which it begins and the size of the file.
pub record LogTail : Type 0 where
  pub raw : Text
  pub start : ℕ
  pub total_size : ℕ

-- What a call answers with, before it is encoded.
pub data Payload : Type 0 where
  configuration : Config → Payload
  exported_to : Text → Payload
  one_task accepted_task : Task → Payload
  all_tasks : List Task → Payload
  log_of : Text → LogTail → Payload
  status_of : Config → ℕ → ℕ → Probe → Payload

pub data ServiceError : Type 0 where
  refused_invocation : InvocationError → ServiceError
  task_id_required no_task bad_action no_config undecodable no_log invalid_config : ServiceError
  moved_state_dir not_saved : ServiceError
  of_tasks : zcr521_ai_mcp.Tasks.Client.Error → ServiceError

-- What a call finds: path/filepath, encoding/json and the words of errors; its time, the files that it
-- can read and write, a random id, the duration. `decode_config` is Marshal and Unmarshal of a value,
-- `files_after` is what an operation that runs does to the configuration files, as a file or a shell tool
-- may; `number` a float64 or a json.Number as the bits of a float64, `to_int64` its conversion.
pub record ServiceEnv (σ : Type 0) : Type 0 where
  pub config_path : Text
  pub join : Join
  pub clean : Text → Text
  pub is_abs : Text → Bool
  pub base : Text → Text
  pub json : Payload → String
  pub words : ServiceError → String
  pub message : Outcome → String
  pub decode_config : Value → Option Config
  pub encode_args : Map Value → Option String
  pub decode_args : String → Option (Map Value)
  pub number : Value → Option ℕ
  pub to_int64 : ℕ → ℤ
  pub text_bytes : Text → String
  pub config_env : zcr521_ai_mcp.Config.Files.Env
  pub task_env : zcr521_ai_mcp.Tasks.Data.Env
  pub ops_env : BackgroundEnv
  pub files_after : OpsRequest → OpsState σ → Map ConfigFile → Map ConfigFile
  pub operations : Operations σ
  pub random_id : Option Text
  pub log_file : Text → Option Text
  pub newest_first : List Task → List Task
  pub sort_tools : List Spec → List Spec
  pub elapsed_ms : ℤ

abbrev pub ops_artifact : (Text → Text) → Text → Artifact
ops_artifact base path = record {
  name = base path;
  path = path;
  uri = [];
  media_type = [];
  size = pos 0;
  sha256 = [];
  expires_at = 0;
}

abbrev pub ops_error : Outcome → Option ErrorInfo
ops_error o =
    if str_eq o.error ""
    then none
    else some (record { type = o.code; details = o.error; fields = [] })

-- convertOps
unfoldable pub convert_ops : (Text → Text) → (Outcome → String) → Outcome → Result
convert_ops base message o = record {
  success = o.success;
  code = o.code;
  message = message o;
  payload = o.payload;
  error = ops_error o;
  stdout = o.stdout;
  stderr = o.stderr;
  exit_code = o.exit_code;
  duration_ms = o.duration_ms;
  task_id = o.task_id;
  reboot_required = o.reboot_required;
  artifacts = map (ops_artifact base) o.artifacts;
  strategy = o.strategy;
  meta = none;
}
