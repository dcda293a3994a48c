-- ===== src/Ops/Outcome.antt =====
-- Request, Result and the constructors of results of internal/ops/types.go. A value of type `any` is
-- its JSON text; an error is its text. The words of a message are not modelled.
use zcr521_ai_mcp.Common.{
  [], Bool, String, Option, true, false, ℤ, some, none, Text, pos, negsuc, List,
}

pub record Outcome : Type 0 where
  pub success : Bool
  pub code : String
  pub payload : Option String
  pub error : String
  pub stdout : String
  pub stderr : String
  pub exit_code : ℤ
  pub duration_ms : ℤ
  pub task_id : Text
  pub reboot_required : Bool
  pub artifacts : List Text
  pub strategy : String

unfoldable pub done : String → String → Outcome
done payload strategy = record {
  success = true;
  code = "OK";
  payload = some payload;
  error = "";
  stdout = "";
  stderr = "";
  exit_code = pos 0;
  duration_ms = pos 0;
  task_id = [];
  reboot_required = false;
  artifacts = [];
  strategy = strategy;
}

unfoldable pub fail : String → String → String → Outcome
fail code error strategy = record {
  success = false;
  code = code;
  payload = none;
  error = error;
  stdout = "";
  stderr = "";
  exit_code = negsuc 0;
  duration_ms = pos 0;
  task_id = [];
  reboot_required = false;
  artifacts = [];
  strategy = strategy;
}

unfoldable pub invalid : String → Outcome
unfolding fail
invalid message = fail "INVALID_ARGUMENT" message "validation"

unfoldable pub unsupported : String → Outcome
unfolding fail
unsupported message = fail "UNSUPPORTED" message "capability_probe"
