-- ===== src/Examples/Service.antt =====
-- A service with the default configuration (internal/service/service.go).
use zcr521_ai_mcp.Config.Files
use zcr521_ai_mcp.Config.Utf8.{has_utf8}
use zcr521_ai_mcp.Schema.Specs.{specs}
use zcr521_ai_mcp.Schema.Invocation.{validate_invocation, find_spec}
use zcr521_ai_mcp.Transfer.Syntax.{trim_space}
use zcr521_ai_mcp.Service.Routes.{public_request}
use zcr521_ai_mcp.Service.Reach.{Goes, accepted_call}
use zcr521_ai_mcp.Tasks.Data.{new_manager}
use zcr521_ai_mcp.Mcp.Handler.{is_background}
use zcr521_ai_mcp.Service.Call.{call}
use zcr521_ai_mcp.Config.Data.{
  normalize, Join, Config, derive_paths, default_config, validate, problems, wildcard_origins,
  bad_path,
}
use zcr521_ai_mcp.Ops.TaskControl.{TaskWords}
use zcr521_ai_mcp.Ops.Dispatch.{Operations, wants_background}
use zcr521_ai_mcp.Service.Data.{ServiceEnv, Service}
use zcr521_ai_mcp.Service.Restart.{Place, ServiceCall, call_all, disk_at, restart_after_calls}
use zcr521_ai_mcp.Service.Configuration.{config_call, reset_config, save_at}
use zcr521_ai_mcp.Config.Files.{save, load, json}
use zcr521_ai_mcp.Ops.Outcome.{done}
use zcr521_ai_mcp.Ops.Values.{Value, text}
use zcr521_ai_mcp.Common.{
  [], ◌∷◌, Map, ◌++◌, ℕ, codes, ◌+◌, has_prefix, ◌≡◌, pos, some, none, refl, false, true, ◌⊎◌,
  lookup, text_eq, member, if◌then◌else◌,
}

abbrev join : Join
join directory name = directory ++ (b'/' ∷ name)

abbrev task_words : TaskWords
task_words = record {
  json = λ p. "{}";
  words = λ e. "refused";
  bad_action = λ a. "unknown action";
  newest_first = λ ts. ts;
  lower = λ s. s;
}

-- Operations that count how often they run.
abbrev operations : Operations ℕ
operations = record {
  run = λ o r active n. (n + 1, some (done "{}" "native"));
  task_words = task_words;
  unknown_tool = λ t. "unknown tool";
  panic = "panic";
}

abbrev host : ServiceEnv ℕ
host = record {
  config_path = codes "/c.json";
  join = join;
  clean = λ s. s;
  is_abs = λ s. has_prefix (codes "/") s;
  base = λ s. s;
  json = λ p. "{}";
  words = λ e. "refused";
  message = λ o. "done";
  decode_config = λ v. none;
  encode_args = λ m. some "{}";
  decode_args = λ s. some [];
  number = λ v. none;
  to_int64 = λ n. pos n;
  text_bytes = λ t. "";
  config_env = record {
    encoding = λ c b. if has_utf8 c then c else b;
    writes = true;
    renames = true;
  };
  task_env = record { now = 1; encodes = λ t. true; writes = true };
  ops_env = record { now = 1; random_task_id = codes "b1"; makes_dirs = true; writes = true };
  files_after = λ r st files. files;
  operations = operations;
  random_id = some (codes "t1");
  log_file = λ path. none;
  newest_first = λ ts. ts;
  sort_tools = λ ss. ss;
  elapsed_ms = pos 3;
}

abbrev begin_config : Config
begin_config = derive_paths join (default_config join)

abbrev service : Service ℕ
service = record {
  config = begin_config;
  files = (codes "/c.json", json (host.config_env.encoding begin_config)) ∷ [];
  tasks = new_manager 8 2;
  operations = record {
    inner = 0;
    background = record { tasks = []; files = []; stopped = []; task_limit = 128 };
  };
  probe = none;
}

-- A shell command whose `background` is the text `true`.
abbrev shell_args : Map Value
shell_args = (codes "action", text (codes "exec")) ∷ (codes "background", text (codes "true")) ∷ []

accepted_call_example :
    let s' = (call host (codes "zcr521_shell") shell_args service).0 in
    ((is_background shell_args ≡ true) × (s'.operations ≡ service.operations))
    ⊎ ((is_background shell_args ≡ false)
        × (s'.tasks ≡ service.tasks)
        × Goes operations host.ops_env
            (public_request task_words.lower (codes "zcr521_shell") shell_args)
            service.operations
            (wants_background shell_args)
            (codes "zcr521_shell")
            s'.operations)
unfolding validate_invocation find_spec specs text_eq lookup member
accepted_call_example = accepted_call host (codes "zcr521_shell") shell_args service refl refl refl

abbrev place : Place
place = record {
  config_path = codes "/c.json";
  join = join;
  clean = λ s. s;
  encoding = host.config_env.encoding;
}

abbrev reset_call : ServiceCall ℕ
reset_call = record {
  env = host;
  tool = codes "zcr521_config";
  args = (codes "action", text (codes "reset")) ∷ [];
}

restart_after_calls_example :
    let s' = call_all (reset_call ∷ []) service in
    (load join host.config_env (codes "/") (disk_at place.config_path s') ≡ (
      disk_at place.config_path s',
      zcr521_ai_mcp.Config.Files.ok (s'.config, record { created = false; recovered = false }),
    ))
    × (validate s'.config ≡ true)
    × (s'.config.paths.state_dir ≡ service.config.paths.state_dir)
unfolding lookup text_eq validate problems derive_paths default_config wildcard_origins bad_path
    trim_space has_prefix has_utf8 call_all call validate_invocation find_spec specs member
    config_call reset_config save_at save normalize
restart_after_calls_example =
    restart_after_calls place host.config_env (codes "/") (reset_call ∷ []) service
      (λ x b h _. rw h refl) ((refl, refl, refl, refl, λ r st files. refl), tt)
      (refl, refl, refl, refl) refl
