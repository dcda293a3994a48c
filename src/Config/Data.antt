-- ===== src/Config/Data.antt =====
-- Config, Default, Validate, derivePaths and Normalize of internal/config/config.go. `join` stands
-- for filepath.Join. A nil capability map is `none`.
use zcr521_ai_mcp.Transfer.Syntax.{trim_space}
use zcr521_ai_mcp.Common.{
  [], ◌∷◌, ℤ, Text, Bool, pos, List, Option, codes, Map, true, if◌then◌else◌, text_eq, has_prefix,
  is_empty, ℕ, not, false, int_lt, int_eq, some, ◌||◌, ◌&&◌, none,
}

pub record Network : Type 0 where
  pub port : ℤ
  pub listen_loopback : Bool
  pub listen_lan : Bool
  pub legacy_sse : Bool
  pub allowed_origins : List Text

pub record Paths : Type 0 where
  pub state_dir : Text
  pub work_dir : Text
  pub downloads_dir : Text
  pub uploads_dir : Text
  pub artifacts_dir : Text
  pub temp_dir : Text

pub record Limits : Type 0 where
  pub max_connections : ℤ
  pub max_request_bytes : ℤ
  pub total_tasks : ℤ
  pub heavy_tasks : ℤ
  pub shell_timeout_seconds : ℤ
  pub transfer_chunk_bytes : ℤ
  pub transfer_max_bytes : ℤ
  pub result_preview_bytes : ℤ
  pub artifact_ttl_seconds : ℤ
  pub shutdown_grace_seconds : ℤ
  pub upload_idle_ttl_seconds : ℤ
  pub download_retry_attempts : ℤ

pub record Security : Type 0 where
  pub anonymous : Bool
  pub on_link_only : Bool
  pub validate_host : Bool
  pub validate_origin : Bool
  pub allow_cors : Bool
  pub drop_frontend_uid : ℤ

pub record Config : Type 0 where
  pub schema_version : ℤ
  pub network : Network
  pub paths : Paths
  pub limits : Limits
  pub security : Security
  pub capabilities : Option (Map Bool)

abbrev pub default_state_dir : Text
default_state_dir = codes "/data/adb/zcr521-mcp"

abbrev pub default_work_dir : Text
default_work_dir = codes "/storage/emulated/0/zcr521AI"

abbrev pub Join : Type 0
Join = Text → Text → Text

unfoldable pub default_config : Join → Config
default_config join = record {
  schema_version = pos 1;
  network = record {
    port = pos 5322;
    listen_loopback = true;
    listen_lan = true;
    legacy_sse = true;
    allowed_origins = [];
  };
  paths = record {
    state_dir = default_state_dir;
    work_dir = default_work_dir;
    downloads_dir = join default_work_dir (codes "downloads");
    uploads_dir = join default_work_dir (codes "uploads");
    artifacts_dir = join default_work_dir (codes "output");
    temp_dir = join default_state_dir (codes "tmp");
  };
  limits = record {
    max_connections = pos 32;
    max_request_bytes = pos 8388608;
    total_tasks = pos 8;
    heavy_tasks = pos 2;
    shell_timeout_seconds = pos 120;
    transfer_chunk_bytes = pos 4194304;
    transfer_max_bytes = pos 0;
    result_preview_bytes = pos 1048576;
    artifact_ttl_seconds = pos 3600;
    shutdown_grace_seconds = pos 15;
    upload_idle_ttl_seconds = pos 86400;
    download_retry_attempts = pos 4;
  };
  security = record {
    anonymous = true;
    on_link_only = true;
    validate_host = true;
    validate_origin = true;
    allow_cors = false;
    drop_frontend_uid = pos 2000;
  };
  capabilities = some [];
}

-- The complaints of Validate; its error joins their texts.
pub data Problem : Type 0 where
  bad_schema bad_port no_listener wildcard_origin bad_state_dir bad_work_dir : Problem
  bad_total_tasks bad_heavy_tasks bad_shell_timeout bad_chunk small_request : Problem
  open_cors not_anonymous checks_disabled bad_frontend_uid : Problem

abbrev pub complain : Bool → Problem → List Problem → List Problem
complain bad p ps = if bad then p ∷ ps else ps

unfoldable pub wildcard_origins : List Text → List Problem → List Problem
wildcard_origins [] ps = ps
wildcard_origins (origin ∷ rest) ps =
    complain (text_eq origin (codes "*")) wildcard_origin (wildcard_origins rest ps)

-- portableAbs, where a path is absolute if it begins with a slash.
abbrev pub portable_abs : Text → Bool
portable_abs path = has_prefix (codes "/") path

unfoldable pub bad_path : Text → Bool
bad_path value = is_empty (trim_space value) || not (portable_abs value)

abbrev pub outside : ℤ → ℕ → ℕ → Bool
outside n low high = int_lt n (pos low) || int_lt (pos high) n

unfoldable pub problems : Config → List Problem
problems c = complain (not (int_eq c.schema_version 1)) bad_schema (
    complain (outside c.network.port 1 65535) bad_port (
      complain (not c.network.listen_loopback && not c.network.listen_lan) no_listener (
        wildcard_origins c.network.allowed_origins (
          complain (bad_path c.paths.state_dir) bad_state_dir (
            complain (bad_path c.paths.work_dir) bad_work_dir (
              complain (outside c.limits.total_tasks 1 128) bad_total_tasks (
                complain
                  (int_lt c.limits.heavy_tasks (pos 1)
                    || int_lt c.limits.total_tasks c.limits.heavy_tasks)
                  bad_heavy_tasks
                  (complain (outside c.limits.shell_timeout_seconds 1 86400) bad_shell_timeout (
                    complain (outside c.limits.transfer_chunk_bytes 65536 67108864) bad_chunk (
                      complain (int_lt c.limits.max_request_bytes c.limits.transfer_chunk_bytes)
                        small_request
                        (complain c.security.allow_cors open_cors (
                          complain (not c.security.anonymous) not_anonymous (
                            complain
                              (not c.security.on_link_only
                                || not c.security.validate_host
                                || not c.security.validate_origin)
                              checks_disabled
                              (complain (not (int_eq c.security.drop_frontend_uid 2000))
                                bad_frontend_uid []))))))))))))))

abbrev pub no_problem : List Problem → Bool
no_problem [] = true
no_problem (_ ∷ _) = false

-- Whether Validate returns nil.
unfoldable pub validate : Config → Bool
validate c = no_problem (problems c)

abbrev pub or_else : Text → Text → Text
or_else value derived = if is_empty value then derived else value

abbrev pub or_no_capability : Option (Map Bool) → Option (Map Bool)
or_no_capability none = some []
or_no_capability (some m) = some m

unfoldable pub derive_paths : Join → Config → Config
derive_paths join c = record c {
  paths = record c.paths {
    downloads_dir = or_else c.paths.downloads_dir (join c.paths.work_dir (codes "downloads"));
    uploads_dir = or_else c.paths.uploads_dir (join c.paths.work_dir (codes "uploads"));
    artifacts_dir = or_else c.paths.artifacts_dir (join c.paths.work_dir (codes "output"));
    temp_dir = or_else c.paths.temp_dir (join c.paths.state_dir (codes "tmp"));
  };
  capabilities = or_no_capability c.capabilities;
}

unfoldable pub normalize : Join → Config → Config
unfolding derive_paths
normalize join c = derive_paths join c
