-- ===== src/Schema/Specs.antt =====
-- The tools of internal/schema/registry.go with their actions. Titles, descriptions and the JSON Schema
-- of the other parameters are left out.
use zcr521_ai_mcp.Common.{[], ◌∷◌, Bool, Text, true, String, List, false, codes, map}

pub record Annotations : Type 0 where
  pub read_only : Bool
  pub idempotent : Bool
  pub destructive : Bool
  pub heavy : Bool

pub record Spec : Type 0 where
  pub name : Text
  pub actions : List Text
  pub annotations : Annotations

abbrev ro : Annotations
ro = record { read_only = true; idempotent = true; destructive = false; heavy = false }

abbrev ro_heavy : Annotations
ro_heavy = record { read_only = true; idempotent = true; destructive = false; heavy = true }

abbrev rw : Bool → Annotations
rw destructive = record {
  read_only = false;
  idempotent = false;
  destructive = destructive;
  heavy = false;
}

abbrev heavy : Bool → Annotations
heavy destructive = record {
  read_only = false;
  idempotent = false;
  destructive = destructive;
  heavy = true;
}

abbrev spec : String → List String → Annotations → Spec
spec name actions annotations = record {
  name = codes name;
  actions = map codes actions;
  annotations = annotations;
}

unfoldable pub specs : List Spec
specs =
    spec "zcr521_status" ("get" ∷ []) ro
    ∷ spec "zcr521_capabilities" ("get" ∷ "probe" ∷ []) ro
    ∷ spec "zcr521_config" ("get" ∷ "validate" ∷ "update" ∷ "export" ∷ "reset" ∷ []) (rw false)
    ∷ spec "zcr521_fs_info" ("stat" ∷ "list" ∷ "disk" ∷ "mounts" ∷ []) ro
    ∷ spec "zcr521_fs_read" ("text" ∷ "binary" ∷ "lines" ∷ "tail" ∷ "resource" ∷ []) ro
    ∷ spec "zcr521_fs_write" ("create" ∷ "append" ∷ "truncate" ∷ "patch" ∷ "touch" ∷ []) (rw true)
    ∷ spec "zcr521_fs_manage"
        ("mkdir" ∷ "copy" ∷ "move" ∷ "remove" ∷ "chmod" ∷ "chown" ∷ "symlink" ∷ "hardlink"
          ∷ "selinux" ∷ [])
        (rw true)
    ∷ spec "zcr521_fs_search" ("name" ∷ "content" ∷ "large" ∷ "duplicates" ∷ []) ro_heavy
    ∷ spec "zcr521_fs_hash" ("calculate" ∷ "verify" ∷ []) ro_heavy
    ∷ spec "zcr521_archive" ("create" ∷ "extract" ∷ "list" ∷ "test" ∷ []) (heavy true)
    ∷ spec "zcr521_download" ("start" ∷ "batch" ∷ "status" ∷ "cancel" ∷ []) (heavy true)
    ∷ spec "zcr521_transfer_upload" ("create" ∷ "chunk" ∷ "status" ∷ "complete" ∷ "cancel" ∷ [])
        (heavy true)
    ∷ spec "zcr521_transfer_export" ("file" ∷ "directory" ∷ "task" ∷ []) (heavy false)
    ∷ spec "zcr521_shell" ("exec" ∷ []) (rw true)
    ∷ spec "zcr521_script" ("validate" ∷ "run" ∷ []) (rw true)
    ∷ spec "zcr521_task" ("get" ∷ "list" ∷ "update" ∷ "cancel" ∷ "logs" ∷ []) (rw false)
    ∷ spec "zcr521_app_list" ("list" ∷ []) ro
    ∷ spec "zcr521_app_info" ("get" ∷ "components" ∷ "permissions" ∷ []) ro
    ∷ spec "zcr521_app_install" ("apk" ∷ "split" ∷ "apks" ∷ "xapk" ∷ "session" ∷ []) (heavy true)
    ∷ spec "zcr521_app_manage"
        ("launch" ∷ "stop" ∷ "clear_cache" ∷ "clear_data" ∷ "enable" ∷ "disable" ∷ "uninstall"
          ∷ "user" ∷ [])
        (rw true)
    ∷ spec "zcr521_app_permission" ("list" ∷ "grant" ∷ "revoke" ∷ "appops" ∷ []) (rw true)
    ∷ spec "zcr521_app_export" ("apk" ∷ "splits" ∷ "bundle" ∷ []) (heavy false)
    ∷ spec "zcr521_root_info" ("detect" ∷ "capabilities" ∷ "self_test" ∷ []) ro
    ∷ spec "zcr521_root_module"
        ("list" ∷ "info" ∷ "install" ∷ "update" ∷ "remove" ∷ "enable" ∷ "disable" ∷ "action"
          ∷ "backup" ∷ "restore" ∷ "logs" ∷ [])
        (heavy true)
    ∷ spec "zcr521_systemless" ("apply" ∷ "remove" ∷ "list" ∷ "verify" ∷ []) (heavy true)
    ∷ spec "zcr521_process" ("list" ∷ "info" ∷ "signal" ∷ "kill" ∷ "renice" ∷ "fds" ∷ []) (rw true)
    ∷ spec "zcr521_service"
        ("binder_list" ∷ "binder_call" ∷ "app_start" ∷ "app_stop" ∷ "init_status" ∷ "init_start"
          ∷ "init_stop" ∷ "init_restart" ∷ [])
        (rw true)
    ∷ spec "zcr521_property" ("get" ∷ "list" ∷ "set" ∷ "reset" ∷ []) (rw true)
    ∷ spec "zcr521_setting" ("get" ∷ "list" ∷ "put" ∷ "delete" ∷ []) (rw true)
    ∷ spec "zcr521_display" ("get" ∷ "brightness" ∷ "size" ∷ "density" ∷ "rotation" ∷ []) (rw true)
    ∷ spec "zcr521_audio" ("get" ∷ "volume" ∷ "mute" ∷ "route" ∷ []) (rw true)
    ∷ spec "zcr521_connectivity"
        ("get" ∷ "wifi" ∷ "mobile_data" ∷ "airplane_mode" ∷ "bluetooth" ∷ "nfc" ∷ []) (rw true)
    ∷ spec "zcr521_locale_time" ("get" ∷ "locale" ∷ "timezone" ∷ "time_format" ∷ []) (rw true)
    ∷ spec "zcr521_input_method" ("list" ∷ "get" ∷ "set" ∷ "enable" ∷ "disable" ∷ []) (rw true)
    ∷ spec "zcr521_app_policy"
        ("get" ∷ "standby_bucket" ∷ "background" ∷ "battery_optimization" ∷ []) (rw true)
    ∷ spec "zcr521_default_app" ("get" ∷ "set" ∷ "clear" ∷ []) (rw true)
    ∷ spec "zcr521_notification" ("get" ∷ "allow" ∷ "deny" ∷ "listener" ∷ []) (rw true)
    ∷ spec "zcr521_accessibility" ("list" ∷ "get" ∷ "enable" ∷ "disable" ∷ []) (rw true)
    ∷ spec "zcr521_developer" ("get" ∷ "adb" ∷ "stay_awake" ∷ "animation" ∷ "mock_location" ∷ [])
        (rw true)
    ∷ spec "zcr521_device_info" ("get" ∷ "battery" ∷ "storage" ∷ "sensors" ∷ []) ro
    ∷ spec "zcr521_power"
        ("reboot" ∷ "recovery" ∷ "bootloader" ∷ "fastbootd" ∷ "shutdown" ∷ "soft_reboot" ∷ [])
        (rw true)
    ∷ spec "zcr521_screen" ("screenshot" ∷ "record" ∷ "foreground" ∷ "wake" ∷ "sleep" ∷ [])
        (rw true)
    ∷ spec "zcr521_input" ("tap" ∷ "swipe" ∷ "text" ∷ "keyevent" ∷ "statusbar" ∷ []) (rw true)
    ∷ spec "zcr521_network"
        ("interfaces" ∷ "routes" ∷ "dns" ∷ "ping" ∷ "resolve" ∷ "http" ∷ "ports" ∷ "connections"
          ∷ "wifi" ∷ "proxy" ∷ "connectivity" ∷ [])
        (rw false)
    ∷ spec "zcr521_log" ("logcat" ∷ "kernel" ∷ "dmesg" ∷ "module" ∷ "mcp" ∷ "stream" ∷ "clear" ∷ [])
        (rw false)
    ∷ spec "zcr521_diagnostics" ("self_test" ∷ "collect" ∷ []) (heavy false)
    ∷ spec "zcr521_schedule"
        ("list" ∷ "create" ∷ "update" ∷ "remove" ∷ "enable" ∷ "disable" ∷ "run" ∷ []) (rw true)
    ∷ spec "zcr521_backup" ("create" ∷ "list" ∷ "verify" ∷ "restore" ∷ "remove" ∷ []) (heavy true)
    ∷ []
