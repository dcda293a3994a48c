-- ===== src/Supervisor/Options.antt =====
-- Options, DefaultOptions and applyDefaults of internal/supervisor/supervisor.go. A duration is a
-- number of nanoseconds; one that is not positive is 0.
use zcr521_ai_mcp.Common.{[], Text, ℕ, codes, if◌then◌else◌, ◌*◌, ◌==◌, is_empty}

pub record Options : Type 0 where
  pub executable : Text
  pub state_dir : Text
  pub frontend_uid : ℕ
  pub frontend_gid : ℕ
  pub stable_after : ℕ
  pub failure_window : ℕ
  pub max_failures : ℕ
  pub initial_delay : ℕ
  pub max_delay : ℕ

abbrev pub second : ℕ
second = 1000000000

unfoldable pub default_options : Options
default_options = record {
  executable = [];
  state_dir = codes "/data/adb/zcr521-mcp";
  frontend_uid = 2000;
  frontend_gid = 2000;
  stable_after = 300 * second;
  failure_window = 600 * second;
  max_failures = 5;
  initial_delay = second;
  max_delay = 60 * second;
}

abbrev or_default : ℕ → ℕ → ℕ
or_default n d = if n == 0 then d else n

unfoldable pub apply_defaults : Options → Options
unfolding default_options
apply_defaults o =
    let d = default_options in
    record o {
      state_dir = if is_empty o.state_dir then d.state_dir else o.state_dir;
      frontend_uid = or_default o.frontend_uid d.frontend_uid;
      frontend_gid = or_default o.frontend_gid d.frontend_gid;
      stable_after = or_default o.stable_after d.stable_after;
      failure_window = or_default o.failure_window d.failure_window;
      max_failures = or_default o.max_failures d.max_failures;
      initial_delay = or_default o.initial_delay d.initial_delay;
      max_delay = or_default o.max_delay d.max_delay;
    }
