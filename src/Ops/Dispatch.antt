-- ===== src/Ops/Dispatch.antt =====
-- executeSync of internal/ops/dispatch.go and Execute of internal/ops/types.go. The operations on other
-- things than tasks are given; `none` is a panic of one. The texts of errors are shortened.
use zcr521_ai_mcp.Ops.TaskControl.{TaskWords}
use zcr521_ai_mcp.Ops.Outcome.{Outcome, fail, invalid}
use zcr521_ai_mcp.Ops.Background.{Background, BackgroundEnv, start_background, count_active}
use zcr521_ai_mcp.Ops.Naming.{OpsRequest, normalize_tool, normalize_public_request}
use zcr521_ai_mcp.Ops.Values.{Arg, Value, ok, arg_bool, err}
use zcr521_ai_mcp.Common.{
  [], ◌∷◌, List, Map, Text, String, ◌++◌, ℕ, Bool, Option, map, member, some, lookup, if◌then◌else◌,
  codes, ◌&&◌, is_empty, false, not, none,
}

-- The methods that executeSync calls.
pub data Operation : Type 0 where
  status_operation capability_operation config_operation fs_info_operation : Operation
  fs_read_operation fs_write_operation fs_manage_operation fs_search_operation : Operation
  fs_hash_operation archive_operation download_operation upload_operation : Operation
  export_operation public_shell_operation public_script_operation : Operation
  public_task_operation process_operation network_operation app_operation : Operation
  root_operation service_operation system_operation device_operation power_operation : Operation
  screen_operation input_operation log_operation diagnostics_operation : Operation
  schedule_operation backup_operation shell_operation task_operation : Operation

abbrev all_to : Operation → List String → Map Operation
all_to o tools = map (λ tool. (codes tool, o)) tools

unfoldable pub operations : Map Operation
operations =
    all_to status_operation ("zcr521_status" ∷ [])
    ++ all_to capability_operation ("zcr521_capabilities" ∷ [])
    ++ all_to config_operation ("zcr521_config" ∷ [])
    ++ all_to fs_info_operation ("zcr521_fs_info" ∷ [])
    ++ all_to fs_read_operation ("zcr521_fs_read" ∷ [])
    ++ all_to fs_write_operation ("zcr521_fs_write" ∷ [])
    ++ all_to fs_manage_operation ("zcr521_fs_manage" ∷ [])
    ++ all_to fs_search_operation ("zcr521_fs_search" ∷ [])
    ++ all_to fs_hash_operation ("zcr521_fs_hash" ∷ [])
    ++ all_to archive_operation ("zcr521_archive" ∷ [])
    ++ all_to download_operation ("zcr521_download" ∷ [])
    ++ all_to upload_operation ("zcr521_transfer_upload" ∷ [])
    ++ all_to export_operation ("zcr521_transfer_export" ∷ [])
    ++ all_to public_shell_operation ("zcr521_shell" ∷ [])
    ++ all_to public_script_operation ("zcr521_script" ∷ [])
    ++ all_to public_task_operation ("zcr521_task" ∷ [])
    ++ all_to process_operation ("zcr521_process" ∷ [])
    ++ all_to network_operation ("zcr521_network" ∷ [])
    ++ all_to app_operation (
        "zcr521_app_list" ∷ "zcr521_app_info" ∷ "zcr521_app_install" ∷ "zcr521_app_manage"
        ∷ "zcr521_app_permission" ∷ "zcr521_app_export" ∷ [])
    ++ all_to root_operation ("zcr521_root_info" ∷ "zcr521_root_module" ∷ "zcr521_systemless" ∷ [])
    ++ all_to service_operation ("zcr521_service" ∷ [])
    ++ all_to system_operation (
        "zcr521_property" ∷ "zcr521_setting" ∷ "zcr521_display" ∷ "zcr521_audio"
        ∷ "zcr521_connectivity" ∷ "zcr521_locale_time" ∷ "zcr521_input_method" ∷ "zcr521_app_policy"
        ∷ "zcr521_default_app" ∷ "zcr521_notification" ∷ "zcr521_accessibility" ∷ "zcr521_developer"
        ∷ [])
    ++ all_to device_operation ("zcr521_device_info" ∷ [])
    ++ all_to power_operation ("zcr521_power" ∷ [])
    ++ all_to screen_operation ("zcr521_screen" ∷ [])
    ++ all_to input_operation ("zcr521_input" ∷ [])
    ++ all_to log_operation ("zcr521_log" ∷ [])
    ++ all_to diagnostics_operation ("zcr521_diagnostics" ∷ [])
    ++ all_to schedule_operation ("zcr521_schedule" ∷ [])
    ++ all_to backup_operation ("zcr521_backup" ∷ [])
    ++ all_to shell_operation (
        "shell_execute" ∷ "shell_exec" ∷ "execute_command" ∷ "command_run" ∷ "shell_execute_many"
        ∷ "execute_commands" ∷ "shell_script" ∷ "script_execute" ∷ "script_run" ∷ [])
    ++ all_to task_operation (
        "task_get" ∷ "task_status" ∷ "task_list" ∷ "task_cancel" ∷ "task_clear" ∷ "task_output"
        ∷ "task_artifacts" ∷ [])

pub record OpsState (σ : Type 0) : Type 0 where
  pub inner : σ
  pub background : Background

-- The other operations, which are told how many tasks are active; the words of errors.
pub record Operations (σ : Type 0) : Type 0 where
  pub run : Operation → OpsRequest → ℕ → σ → σ × Option Outcome
  pub task_words : TaskWords
  pub unknown_tool : Text → String
  pub panic : String

abbrev pub is_task_control : Text → Bool
is_task_control tool = member tool (
    map codes (
      "task_get" ∷ "task_status" ∷ "task_list" ∷ "task_cancel" ∷ "task_clear" ∷ "task_output"
      ∷ "task_artifacts" ∷ []))

-- The argument `background`, whose errors are left alone.
abbrev pub or_false : Arg Bool → Bool
or_false (ok b) = b
or_false (err e) = false

unfoldable pub wants_background : Map Value → Bool
wants_background args = or_false (arg_bool args (codes "background") false)

module _ {σ : Type 0} (ops : Operations σ) (env : BackgroundEnv) where
  abbrev pub on_tasks : OpsState σ → Background × Outcome → OpsState σ × Option Outcome
  on_tasks st (b, o) = (record st { background = b }, some o)

  abbrev pub run_inner : OpsState σ → σ × Option Outcome → OpsState σ × Option Outcome
  run_inner st (s, o) = (record st { inner = s }, o)

  abbrev pub run_operation :
      OpsRequest → OpsState σ → Option Operation → OpsState σ × Option Outcome
  run_operation r st none = (st, some (fail "UNKNOWN_TOOL" (ops.unknown_tool r.tool) "dispatcher"))
  run_operation r st (some public_task_operation) = on_tasks st (
      zcr521_ai_mcp.Ops.TaskControl.public_task_operation ops.task_words env.writes r st.background)
  run_operation r st (some task_operation) =
      on_tasks st
        (zcr521_ai_mcp.Ops.TaskControl.task_operation ops.task_words env.writes r st.background)
  run_operation r st (some o) =
      run_inner st (ops.run o r (count_active st.background.tasks) st.inner)

  unfoldable pub execute_sync : OpsRequest → OpsState σ → OpsState σ × Option Outcome
  execute_sync r st = run_operation r st (lookup r.tool operations)

  abbrev pub execute_public : OpsRequest → OpsState σ → OpsState σ × Option Outcome
  execute_public r st =
      if wants_background r.args && not (is_task_control r.tool)
      then on_tasks st (start_background env r.tool st.background)
      else execute_sync r st

  abbrev pub recovered : OpsState σ × Option Outcome → OpsState σ × Outcome
  recovered (st, some o) = (st, o)
  recovered (st, none) = (st, fail "INTERNAL_ERROR" ops.panic "panic_guard")

  -- Execute, but for the duration that it writes into the result.
  unfoldable pub execute : OpsRequest → OpsState σ → OpsState σ × Outcome
  execute r st =
      let tool = normalize_tool ops.task_words.lower r.tool in
      if is_empty tool
      then (st, invalid "tool")
      else recovered (
          execute_public (normalize_public_request ops.task_words.lower (record r { tool = tool }))
            st)
