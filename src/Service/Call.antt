-- ===== src/Service/Call.antt =====
-- Call, Status and runTask of internal/service/service.go.
use zcr521_ai_mcp.Service.TaskCalls.{task_call}
use zcr521_ai_mcp.Service.Configuration.{config_call}
use zcr521_ai_mcp.Mcp.Handler.{is_background}
use package.text.Mathlib.Text.{◌==◌ as str_eq}
use zcr521_ai_mcp.Ops.Naming.{OpsRequest}
use zcr521_ai_mcp.Schema.Specs.{Spec}
use zcr521_ai_mcp.Schema.Invocation.{InvocationError, validate_invocation, find}
use zcr521_ai_mcp.Ops.Dispatch.{execute}
use zcr521_ai_mcp.Tasks.Client.{Reply, ok, err, submit}
use zcr521_ai_mcp.Model.{Result, success, failure}
use zcr521_ai_mcp.Service.Data.{
  Service, ServiceEnv, Payload, status_of, of_tasks, convert_ops, Probe, accepted_task, undecodable,
  refused_invocation,
}
use zcr521_ai_mcp.Tasks.Data.{Task, Manager, terminal, one_bits}
use zcr521_ai_mcp.Ops.Values.{Value, text}
use zcr521_ai_mcp.Ops.Outcome.{Outcome}
use zcr521_ai_mcp.Common.{
  [], ◌∷◌, ℕ, Text, Map, List, Option, some, String, codes, if◌then◌else◌, length, Bool, none,
  text_eq, ◌+◌, false, erase, true,
}

-- A task that is written by the reporter of runTask.
pub data Report : Type 0 where
  progress : ℕ → Report
  log : String → String → Report

abbrev pub request_of : Text → Map Value → OpsRequest
request_of tool args = record { tool = tool; args = args }

abbrev pub get_args : Map Value
get_args = (codes "action", text (codes "get")) ∷ []

unfoldable pub count_live : Map Task → ℕ
count_live [] = 0
count_live ((id, t) ∷ rest) = (if terminal t then 0 else 1) + count_live rest

-- isHeavy
unfoldable pub is_heavy : (List Spec → List Spec) → Text → Bool
is_heavy sort tool = heavy_of (find sort tool)
  where
    heavy_of : Option Spec → Bool
    heavy_of none = false
    heavy_of (some s) = s.annotations.heavy

module _ {σ : Type 0} (env : ServiceEnv σ) where
  -- ops.Execute, which may also write a configuration file.
  abbrev pub run_operation : OpsRequest → Service σ → Service σ × Outcome
  run_operation r s =
      let (st, o) = execute env.operations env.ops_env r s.operations in
      (record s { operations = st; files = env.files_after r s.operations s.files }, o)

  abbrev pub executed : Service σ × Outcome → Service σ × Result
  executed (s, o) = (s, convert_ops env.base env.message o)

  unfoldable pub collect_probe : Service σ → Service σ × Probe
  collect_probe s =
      let (s', capability) = run_operation (request_of (codes "zcr521_capabilities") get_args) s in
      let (s'', device) = run_operation (request_of (codes "zcr521_device_info") get_args) s' in
      (s'', record { capability = capability; device = device })

  -- probeOnce
  abbrev pub probed : Service σ → Option Probe → Service σ × Probe
  probed s (some p) = (s, p)
  probed s none = let (s', p) = collect_probe s in (record s' { probe = some p }, p)

  unfoldable pub status : Service σ → Service σ × Payload
  status s =
      let (s', p) = probed s s.probe in
      (s', status_of s.config (count_live s.tasks.tasks) (length s.tasks.tasks) p)

  abbrev pub status_result : Service σ × Payload → Service σ × Result
  status_result (s, p) = (s, record (success "OK" "" (some (env.json p))) { strategy = "broker" })

  abbrev pub submitted : Service σ → Manager × Reply Task → Service σ × Result
  submitted s (m, err e) =
      (record s { tasks = m }, failure "TASK_SUBMIT_FAILED" "" "TaskError" (env.words (of_tasks e)))
  submitted s (m, ok t) = (
    record s { tasks = m },
    record (success "TASK_ACCEPTED" "" (some (env.json (accepted_task t)))) {
      task_id = t.id;
      strategy = "durable_task";
    },
  )

  abbrev pub call_operation : Text → Map Value → Service σ → Service σ × Result
  call_operation tool args s =
      if is_background args
      then submitted s (
          submit env.task_env tool (env.encode_args (erase (codes "background") args))
            (is_heavy env.sort_tools tool) true env.random_id s.tasks)
      else executed (run_operation (request_of tool args) s)

  abbrev pub call_valid : Text → Map Value → Service σ → Service σ × Result
  call_valid tool args s =
      if text_eq tool (codes "zcr521_status")
      then status_result (status s)
      else if text_eq tool (codes "zcr521_config")
      then config_call env args s
      else if text_eq tool (codes "zcr521_task")
      then task_call env args s
      else call_operation tool args s

  abbrev pub timed : Service σ × Result → Service σ × Result
  timed (s, r) = (s, record r { duration_ms = env.elapsed_ms })

  abbrev pub unless_refused :
      Text → Map Value → Service σ → Option InvocationError → Service σ × Result
  unless_refused tool args s none = call_valid tool args s
  unless_refused tool args s (some e) =
      (s, failure "INVALID_ARGUMENT" "" "ValidationError" (env.words (refused_invocation e)))

  -- Call
  unfoldable pub call : Text → Map Value → Service σ → Service σ × Result
  call tool args s = timed (unless_refused tool args s (validate_invocation tool args))

  abbrev pub log_unless_empty : String → String → List Report → List Report
  log_unless_empty stream output rest = if str_eq output "" then rest else log stream output ∷ rest

  abbrev pub reports_of : Result → List Report
  reports_of r =
      progress 0x3f847ae147ae147b
      ∷ log_unless_empty "stdout" r.stdout
          (log_unless_empty "stderr" r.stderr (if r.success then progress one_bits ∷ [] else []))

  abbrev pub reported : Task → Service σ × Result → Service σ × List Report × Result
  reported t (s, r) = (s, reports_of r, record r { task_id = t.id })

  abbrev pub run_args : Task → Service σ → Option (Map Value) → Service σ × List Report × Result
  run_args t s none = (s, [], failure "INVALID_ARGUMENT" "" "DecodeError" (env.words undecodable))
  run_args t s (some args) = reported t (executed (run_operation (request_of t.tool args) s))

  -- runTask, with what it reports in order.
  unfoldable pub run_task : Task → Service σ → Service σ × List Report × Result
  run_task t s = run_args t s (env.decode_args t.arguments)
