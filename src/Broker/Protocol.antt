-- ===== src/Broker/Protocol.antt =====
-- Request, Response, Handler and Peer of internal/broker/protocol.go. A value of type `any` is its
-- JSON text, a float64 its bits. The arguments are what their JSON decodes to; an empty text is
-- `absent`.
use zcr521_ai_mcp.Model.{Result}
use zcr521_ai_mcp.Common.{[], String, ℤ, Text, false, ℕ, Map, Option, Bool, none, pos}

pub data Value : Type 0 where
  text : String → Value
  number : ℕ → Value
  other : String → Value

pub data Arguments : Type 0 where
  absent : Arguments
  malformed : String → Arguments
  object : Map Value → Arguments

pub record Request : Type 0 where
  pub version : ℤ
  pub id : Text
  pub method : Text
  pub tool : Text
  pub arguments : Arguments
  pub timeout_ms : ℤ

pub record Response : Type 0 where
  pub version : ℤ
  pub id : Text
  pub result : Result
  pub payload : Option String
  pub error_code : String
  pub error : String

-- What a handler returns: data, or an error, with the data beside it, if any, whether it is
-- os.ErrNotExist, and its text.
pub data Answer : Type 0 where
  answer : String → Answer
  fault : Option String → Bool → String → Answer

-- The state of the handler is any type.
pub record Handler (S : Type 0) : Type 0 where
  pub call : Text → Map Value → S → S × Result
  pub status : S → S × Answer
  pub task_get : String → S → S × Answer
  pub task_list : S → S × Answer
  pub task_update : String → ℕ → String → S → S × Answer
  pub task_cancel : String → S → S × Answer

pub record Peer : Type 0 where
  pub pid : ℤ
  pub uid : ℕ
  pub gid : ℕ

-- A Result that is left at Go's zero value.
unfoldable pub zero_result : Result
zero_result = record {
  success = false;
  code = "";
  message = "";
  payload = none;
  error = none;
  stdout = "";
  stderr = "";
  exit_code = pos 0;
  duration_ms = pos 0;
  task_id = [];
  reboot_required = false;
  artifacts = [];
  strategy = "";
  meta = none;
}
