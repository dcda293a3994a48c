-- ===== src/Service/Configuration.antt =====
-- configCall and decodeConfig of internal/service/service.go.
use zcr521_ai_mcp.Mcp.Json.{or_empty, as_text}
use zcr521_ai_mcp.Ops.Values.{Value}
use zcr521_ai_mcp.Config.Files.{ConfigFile, absent, Disk, Fault, save}
use zcr521_ai_mcp.Config.Data.{Config, normalize, validate, default_config}
use zcr521_ai_mcp.Service.Data.{
  ServiceEnv, Service, ServiceError, not_saved, bad_action, moved_state_dir, invalid_config,
  configuration, exported_to,
}
use zcr521_ai_mcp.Model.{Result, success, failure}
use zcr521_ai_mcp.Common.{
  [], Option, String, Text, Map, some, insert, lookup, if◌then◌else◌, none, codes, true, not,
  is_empty, text_eq,
}

abbrev pub or_absent : Option ConfigFile → ConfigFile
or_absent none = absent
or_absent (some f) = f

module _ {σ : Type 0} (env : ServiceEnv σ) where
  abbrev pub failed_with : String → String → ServiceError → Result
  failed_with code type e = failure code "" type (env.words e)

  abbrev pub put_file : Text → Service σ → Disk × Option Fault → Service σ × Option Fault
  put_file path s (d, e) = (record s { files = insert path d.file s.files }, e)

  -- config.Save at a path.
  unfoldable pub save_at : Text → Config → Service σ → Service σ × Option Fault
  save_at path c s = put_file path s (
      save env.join env.config_env c
        (record { file = or_absent (lookup path s.files); backup = none }))

  -- decodeConfig; both errors are told apart by nothing but their words.
  abbrev pub checked : Option Config → Option Config
  checked none = none
  checked (some c) = let c' = normalize env.join c in if validate c' then some c' else none

  abbrev pub decode_value : Option Value → Option Config
  decode_value none = none
  decode_value (some v) = checked (env.decode_config v)

  unfoldable pub decode_args_config : Map Value → Option Config
  decode_args_config args = decode_value (lookup (codes "config") args)

  abbrev pub stored : String → Config → Service σ × Option Fault → Service σ × Result
  stored code c (s, some e) = (s, failed_with code "ConfigError" not_saved)
  stored code c (s, none) = (
    record s { config = c },
    record (success "OK" "" (some (env.json (configuration c)))) {
      reboot_required = true;
      strategy = "atomic_json";
    },
  )

  abbrev pub validate_config : Option Config → Service σ → Service σ × Result
  validate_config none s = (s, failed_with "INVALID_CONFIG" "ConfigError" invalid_config)
  validate_config (some c) s = (s, success "OK" "" (some (env.json (configuration c))))

  unfoldable pub update_config : Option Config → Service σ → Service σ × Result
  update_config none s = (s, failed_with "INVALID_CONFIG" "ConfigError" invalid_config)
  update_config (some c) s =
      if not (text_eq (env.clean c.paths.state_dir) (env.clean s.config.paths.state_dir))
      then (s, failed_with "IMMUTABLE_CONFIG" "ConfigError" moved_state_dir)
      else stored "CONFIG_WRITE_FAILED" c (save_at env.config_path c s)

  -- The default, with the directories of the present one.
  abbrev pub default_in : Config → Config
  default_in current = record (default_config env.join) {
    paths = record {
      state_dir = current.paths.state_dir;
      work_dir = current.paths.work_dir;
      downloads_dir = [];
      uploads_dir = [];
      artifacts_dir = [];
      temp_dir = [];
    };
  }

  abbrev pub reset_of : Config → Config
  reset_of current = normalize env.join (default_in current)

  unfoldable pub reset_config : Service σ → Service σ × Result
  reset_config s =
      let c = reset_of s.config in stored "CONFIG_WRITE_FAILED" c (save_at env.config_path c s)

  abbrev pub destination_in : Text → Text → Text
  destination_in work_dir destination =
      if is_empty destination
      then env.join (env.join work_dir (codes "output")) (codes "zcr521-config.json")
      else if env.is_abs destination
      then destination
      else env.join work_dir destination

  abbrev pub exported : Text → Service σ × Option Fault → Service σ × Result
  exported path (s, some e) = (s, failed_with "CONFIG_EXPORT_FAILED" "FilesystemError" not_saved)
  exported path (s, none) = (
    s,
    record (success "OK" "" (some (env.json (exported_to path)))) { strategy = "json_export" },
  )

  unfoldable pub export_config : Text → Service σ → Service σ × Result
  export_config path s = exported path (save_at path s.config s)

  -- configCall
  unfoldable pub config_call : Map Value → Service σ → Service σ × Result
  config_call args s =
      let action = or_empty (as_text (lookup (codes "action") args)) in
      if text_eq action (codes "get")
      then (s, success "OK" "" (some (env.json (configuration s.config))))
      else if text_eq action (codes "validate")
      then validate_config (decode_args_config args) s
      else if text_eq action (codes "update")
      then update_config (decode_args_config args) s
      else if text_eq action (codes "reset")
      then reset_config s
      else if text_eq action (codes "export")
      then export_config
          (destination_in s.config.paths.work_dir
            (or_empty (as_text (lookup (codes "destination") args))))
          s
      else (s, failed_with "INVALID_ARGUMENT" "ValidationError" bad_action)
