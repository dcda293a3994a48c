-- ===== src/Model.antt =====
-- internal/model/result.go: the result that every tool returns, and its two constructors. A value of
-- type `any` is its JSON text, and a nil map is `none`.
use zcr521_ai_mcp.Common.{
  ℕ, Bool, true, false, String, Option, none, some, List, [], Text, ℤ, pos, negsuc, Map,
}

pub record ErrorInfo : Type 0 where
  pub type : String
  pub details : String
  pub fields : Map String

pub record Artifact : Type 0 where
  pub name : Text
  pub path : Text
  pub uri : Text
  pub media_type : Text
  pub size : ℤ
  pub sha256 : Text
  pub expires_at : ℕ

pub record Result : Type 0 where
  pub success : Bool
  pub code : String
  pub message : String
  pub payload : Option String
  pub error : Option ErrorInfo
  pub stdout : String
  pub stderr : String
  pub exit_code : ℤ
  pub duration_ms : ℤ
  pub task_id : Text
  pub reboot_required : Bool
  pub artifacts : List Artifact
  pub strategy : String
  pub meta : Option (Map String)

unfoldable pub success : String → String → Option String → Result
success code message payload = record {
  success = true;
  code = code;
  message = message;
  payload = payload;
  error = none;
  stdout = "";
  stderr = "";
  exit_code = pos 0;
  duration_ms = pos 0;
  task_id = [];
  reboot_required = false;
  artifacts = [];
  strategy = "native";
  meta = none;
}

unfoldable pub failure : String → String → String → String → Result
failure code message error_type details = record {
  success = false;
  code = code;
  message = message;
  payload = none;
  error = some (record { type = error_type; details = details; fields = [] });
  stdout = "";
  stderr = "";
  exit_code = negsuc 0;
  duration_ms = pos 0;
  task_id = [];
  reboot_required = false;
  artifacts = [];
  strategy = "none";
  meta = none;
}
