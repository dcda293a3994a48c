-- ===== src/Service/Restart.antt =====
-- A restart of the service (internal/service/service.go, internal/config/config.go).
use zcr521_ai_mcp.Config.Files
use zcr521_ai_mcp.Config.Loading.{blank_capabilities}
use zcr521_ai_mcp.Ops.Dispatch.{OpsState}
use zcr521_ai_mcp.Config.Utf8.{has_utf8}
use zcr521_ai_mcp.Ops.Naming.{OpsRequest}
use zcr521_ai_mcp.Service.Configuration.{or_absent}
use zcr521_ai_mcp.Config.Data.{Join, validate, Config}
use zcr521_ai_mcp.Config.Files.{Disk, load, absent, ConfigFile, blank_config}
use mathlib.Core.Path.{subst, sym}
use zcr521_ai_mcp.Mcp.Json.{or_empty, as_text}
use zcr521_ai_mcp.Mcp.Handler.{is_background}
use zcr521_ai_mcp.Schema.Invocation.{InvocationError, validate_invocation}
use zcr521_ai_mcp.Service.Synced.{InSync, Kept, kept, config_call-Kept}
use zcr521_ai_mcp.Service.TaskCalls.{
  task_call, task_cancel, task_update, of_reply, Told, task_result_of, told, refused,
}
use zcr521_ai_mcp.Service.Call.{
  status, call, call_operation, status_result, submitted, probed, timed, unless_refused, count_live,
  request_of, collect_probe, run_operation, get_args,
}
use zcr521_ai_mcp.Service.Data.{ServiceEnv, Service, Probe, status_of}
use zcr521_ai_mcp.Tasks.Data.{Task, Manager}
use zcr521_ai_mcp.Tasks.Client.{Reply, ok, err}
use zcr521_ai_mcp.Model.{Result}
use zcr521_ai_mcp.Ops.Values.{Value}
use zcr521_ai_mcp.Common.{
  refl, Text, Map, Option, some, codes, none, Bool, text_eq, length, lookup, ◌≡◌, List, ◌∷◌, All,
  [], false, true, if_both, ◌∙◌,
}

-- Where a service lives: the path of its configuration, the functions of path/filepath, and
-- encoding/json.
pub record Place : Type 0 where
  pub config_path : Text
  pub join : Join
  pub clean : Text → Text
  pub encoding : Config → Config → Config

-- A call of the service, with what it finds.
pub record ServiceCall (σ : Type 0) : Type 0 where
  pub env : ServiceEnv σ
  pub tool : Text
  pub args : Map Value

-- No operation changes the file of the configuration.
abbrev pub Spares : {σ : Type 0} → ServiceEnv σ → Type 0
Spares env =
    (r : OpsRequest) (st : OpsState _) (files : Map ConfigFile)
    → lookup env.config_path (env.files_after r st files) ≡ lookup env.config_path files

abbrev pub At : {σ : Type 0} → Place → ServiceCall σ → Type 0
At place c =
    (c.env.config_path ≡ place.config_path)
    × (c.env.join ≡ place.join)
    × (c.env.clean ≡ place.clean)
    × (c.env.config_env.encoding ≡ place.encoding)
    × Spares c.env

-- Calls one after the other.
unfoldable pub call_all : {σ : Type 0} → List (ServiceCall σ) → Service σ → Service σ
call_all [] s = s
call_all (c ∷ cs) s = call_all cs (call c.env c.tool c.args s).0

-- The configuration files as a start finds them.
abbrev pub disk_at : {σ : Type 0} → Text → Service σ → Disk
disk_at path s = record { file = or_absent (lookup path s.files); backup = none }

module _ {σ : Type 0} (env : ServiceEnv σ) (dir : Text) (spares : Spares env) where
  abbrev Synced : Service σ → Type 0
  Synced s = InSync env.config_env.encoding env.config_path env.clean env.join dir s

  run_operation-Synced :
      (r : OpsRequest) (s : Service σ) → Synced s → Synced (run_operation env r s).0
  run_operation-Synced r s (file, valid, derived, same) =
      (spares r s.operations s.files ∙ file, valid, derived, same)

  call_operation-Kept :
      (tool : Text) (args : Map Value) (s : Service σ)
      → Synced s
      → Kept env dir (call_operation env tool args s)
  call_operation-Kept tool args s h =
      if_both (Kept env dir) (is_background args) (of_submitted _)
        (kept env dir _ (run_operation-Synced (request_of tool args) s h))
    where
      of_submitted : (r : Manager × Reply Task) → Kept env dir (submitted env s r)
      of_submitted (m, err e) = kept env dir _ h
      of_submitted (m, ok t) = kept env dir _ h

  replied-Kept :
      (s : Service σ) (r : Manager × Reply Task)
      → Synced s
      → Kept env dir (task_result_of env (of_reply env s r))
  replied-Kept s (m, ok t) h = kept env dir _ h
  replied-Kept s (m, err e) h = kept env dir _ h

  unchanged-Kept : (s : Service σ) (t : Told) → Synced s → Kept env dir (task_result_of env (s, t))
  unchanged-Kept s (told p) h = kept env dir _ h
  unchanged-Kept s (refused e) h = kept env dir _ h

  abbrev After : Service σ × Told → Type 0
  After r = Kept env dir (task_result_of env r)

  task_call-Kept :
      (args : Map Value) (s : Service σ) → Synced s → Kept env dir (task_call env args s)
  unfolding task_call task_cancel task_update
  task_call-Kept args s h =
      let is : Text → Bool =
        λ action. text_eq (or_empty (as_text (lookup (codes "action") args))) action in
      if_both After (is (codes "get")) (unchanged-Kept s _ h) (
        if_both After (is (codes "list")) (kept env dir _ h) (
          if_both After (is (codes "cancel")) (replied-Kept s _ h) (
            if_both After (is (codes "update")) (replied-Kept s _ h)
              (if_both After (is (codes "logs")) (unchanged-Kept s _ h) (kept env dir _ h)))))

  status-Kept : (s : Service σ) → Synced s → Kept env dir (status_result env (status env s))
  unfolding status collect_probe
  status-Kept s h = of_probe s.probe
    where
      of_probe :
          (o : Option Probe)
          → Kept env dir (
              status_result env (
                let (s', p) = probed env s o in
                (s', status_of s.config (count_live s.tasks.tasks) (length s.tasks.tasks) p)))
      of_probe none =
          let (st, first) =
            run_operation env (request_of (codes "zcr521_capabilities") get_args) s in
          let k = run_operation-Synced (request_of (codes "zcr521_capabilities") get_args) s h in
          kept env dir _
            (run_operation-Synced (request_of (codes "zcr521_device_info") get_args) st k)
      of_probe (some p) = kept env dir _ h

  timed-Kept : (r : Service σ × Result) → Kept env dir r → Kept env dir (timed env r)
  unfolding Kept
  timed-Kept (s, r) h = h

  call-Kept :
      (tool : Text) (args : Map Value) (s : Service σ)
      → Synced s
      → Kept env dir (call env tool args s)
  unfolding call
  call-Kept tool args s h = timed-Kept _ (of_check (validate_invocation tool args))
    where
      of_check : (o : Option InvocationError) → Kept env dir (unless_refused env tool args s o)
      of_check (some e) = kept env dir _ h
      of_check none =
          if_both (Kept env dir) (text_eq tool (codes "zcr521_status")) (status-Kept s h) (
            if_both (Kept env dir) (text_eq tool (codes "zcr521_config"))
              (config_call-Kept env dir args s h)
              (if_both (Kept env dir) (text_eq tool (codes "zcr521_task")) (task_call-Kept args s h)
                (call_operation-Kept tool args s h)))

abbrev InPlace : {σ : Type 0} → Place → Text → Service σ → Type 0
InPlace place dir s = InSync place.encoding place.config_path place.clean place.join dir s

call-InPlace :
    {σ : Type 0} (place : Place) (dir : Text) (c : ServiceCall σ) (s : Service σ)
    → At place c
    → InPlace place dir s
    → InPlace place dir (call c.env c.tool c.args s).0
unfolding Kept
call-InPlace place dir c s (p, j, n, e, spares) h =
    let here : Place = record {
      config_path = c.env.config_path;
      join = c.env.join;
      clean = c.env.clean;
      encoding = c.env.config_env.encoding;
    } in
    let same : here ≡ place =
      λ i. record { config_path = p i; join = j i; clean = n i; encoding = e i } in
    subst (λ q. InPlace q dir (call c.env c.tool c.args s).0) same
      (call-Kept c.env dir spares c.tool c.args s (subst (λ q. InPlace q dir s) (sym same) h))

call_all-InPlace :
    {σ : Type 0} (place : Place) (dir : Text) (cs : List (ServiceCall σ)) (s : Service σ)
    → All (At place) cs
    → InPlace place dir s
    → InPlace place dir (call_all cs s)
unfolding call_all
call_all-InPlace place dir [] s same h = h
call_all-InPlace place dir (c ∷ cs) s (a, rest) h =
    call_all-InPlace place dir cs (call c.env c.tool c.args s).0 rest
      (call-InPlace place dir c s a h)

-- A service whose file holds what the configuration in memory is encoded to, valid and with its derived
-- paths: after whatever calls, one after the other, whichever of their writes fail, whose operations
-- leave this file as it is, a start would load from the file exactly the configuration in memory,
-- without creating or recovering anything, given that its texts are UTF-8 and of encoding/json that
-- such a configuration, encoded and decoded into one with an empty map, is read as it was; it is
-- valid, and its state directory is, up to Clean, the first one.
pub restart_after_calls :
    {σ : Type 0} (place : Place) (later : zcr521_ai_mcp.Config.Files.Env) (dir : Text)
    (cs : List (ServiceCall σ)) (s : Service σ)
    → ((x b : Config) → has_utf8 x ≡ true → b.capabilities ≡ some [] → place.encoding x b ≡ x)
    → All (At place) cs
    → InSync place.encoding place.config_path place.clean place.join
        (place.clean s.config.paths.state_dir)
        s
    → has_utf8 (call_all cs s).config ≡ true
    → let s' = call_all cs s in
      (load place.join later dir (disk_at place.config_path s') ≡ (
        disk_at place.config_path s',
        zcr521_ai_mcp.Config.Files.ok (s'.config, record { created = false; recovered = false }),
      ))
      × (validate s'.config ≡ true)
      × (place.clean s'.config.paths.state_dir ≡ place.clean s.config.paths.state_dir)
unfolding load
restart_after_calls place later dir cs s law all h plain =
    let (file, valid, derived, same) =
      call_all-InPlace place (place.clean s.config.paths.state_dir) cs s all h in
    let read =
      law (call_all cs s).config (blank_config place.join dir) plain
        (blank_capabilities place.join dir) in
    (rw (file, read, valid, derived) refl, valid, same)
