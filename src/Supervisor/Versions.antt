-- ===== src/Supervisor/Versions.antt =====
-- VersionState, markStable, rollback and rollbackPendingCandidate of
-- internal/supervisor/supervisor.go. The state file is the state that it decodes to; `none` is one
-- that cannot be read. A time of 0 is Go's zero time.
use zcr521_ai_mcp.Supervisor.Options.{Options}
use zcr521_ai_mcp.Common.{
  [], Text, Bool, ℕ, Option, String, text_eq, false, not, if◌then◌else◌, codes, some, is_empty,
  none, ◌||◌, true, ◌&&◌, has_prefix, ◌==◌,
}

pub record VersionState : Type 0 where
  pub active_version : Text
  pub active_binary : Text
  pub candidate_version : Text
  pub candidate_binary : Text
  pub previous_version : Text
  pub previous_binary : Text
  pub candidate_started : ℕ
  pub good_since : ℕ
  pub rollback_at : ℕ
  pub rollback_reason : String

unfoldable pub no_version : VersionState
no_version = record {
  active_version = [];
  active_binary = [];
  candidate_version = [];
  candidate_binary = [];
  previous_version = [];
  previous_binary = [];
  candidate_started = 0;
  good_since = 0;
  rollback_at = 0;
  rollback_reason = "";
}

-- versions/state.json: absent, not readable or no JSON, or a state.
pub data StateFile : Type 0 where
  absent unreadable : StateFile
  state : VersionState → StateFile

-- What os.Stat says of the previous binary.
pub data BinaryInfo : Type 0 where
  missing : BinaryInfo
  present : Bool → ℕ → BinaryInfo

-- What a call meets. `relative` is filepath.Rel of the previous binary from the versions directory,
-- `restores` whether restorePreviousBinary succeeds, `execs` whether the process is replaced.
pub record Env : Type 0 where
  pub now : ℕ
  pub version : Text
  pub info : BinaryInfo
  pub relative : Option Text
  pub restores : Bool
  pub writes : Bool
  pub execs : Bool

pub data Fault : Type 0 where
  no_pending_candidate unreadable_state no_previous missing_binary bad_binary : Fault
  outside_versions not_restored not_written not_replaced : Fault

-- The state file and the binary at `Executable`: `restored` is the previous one.
pub record Disk : Type 0 where
  pub file : StateFile
  pub restored : Bool

-- `none` for the fault: done.
abbrev pub Done : Type 0
Done = Disk × Option Fault

abbrev read_or_empty : StateFile → VersionState
read_or_empty absent = no_version
read_or_empty unreadable = no_version
read_or_empty (state v) = v

unfoldable pub mark_stable : Options → Env → Disk → Done
unfolding no_version
mark_stable o env d =
    let v : VersionState = record (read_or_empty d.file) {
      active_version = env.version;
      active_binary = o.executable;
      good_since = env.now;
      candidate_version = [];
      candidate_binary = [];
    } in
    if env.writes then (record d { file = state v }, none) else (d, some not_written)

-- The rollback that is written down.
unfoldable pub rolled_back : Options → ℕ → String → VersionState → VersionState
rolled_back o now reason v = record v {
  rollback_at = now;
  rollback_reason = reason;
  active_version = v.previous_version;
  active_binary = o.executable;
  candidate_version = [];
  candidate_binary = [];
  good_since = now;
}

-- A path relative to the versions directory that leaves it.
unfoldable pub escapes : Text → Bool
escapes relative =
    text_eq relative (codes "..")
    || has_prefix (codes "/") relative
    || has_prefix (codes "../") relative

abbrev pub stays_inside : Option Text → Bool
stays_inside none = false
stays_inside (some relative) = not (escapes relative)

abbrev restore_and_write : Options → Env → String → VersionState → Disk → Done
restore_and_write o env reason v d =
    if not env.restores
    then (d, some not_restored)
    else if not env.writes
    then (record d { restored = true }, some not_written)
    else (
      record { file = state (rolled_back o env.now reason v); restored = true },
      if env.execs then none else some not_replaced,
    )

abbrev rollback_info : Options → Env → String → VersionState → Disk → BinaryInfo → Done
rollback_info o env reason v d missing = (d, some missing_binary)
rollback_info o env reason v d (present is_regular size) =
    if not is_regular || size == 0
    then (d, some bad_binary)
    else if not (stays_inside env.relative)
    then (d, some outside_versions)
    else restore_and_write o env reason v d

unfoldable pub rollback_state : Options → Env → String → VersionState → Disk → Done
rollback_state o env reason v d =
    if is_empty v.previous_binary || text_eq v.previous_binary o.executable
    then (d, some no_previous)
    else rollback_info o env reason v d env.info

abbrev rollback_file : Options → Env → String → Disk → StateFile → Done
rollback_file o env reason d absent = (d, some unreadable_state)
rollback_file o env reason d unreadable = (d, some unreadable_state)
rollback_file o env reason d (state v) = rollback_state o env reason v d

unfoldable pub rollback : Options → Env → String → Disk → Done
rollback o env reason d = rollback_file o env reason d d.file

-- Whether a candidate waits for its verdict.
unfoldable pub is_pending : VersionState → Bool
is_pending v =
    not (is_empty v.candidate_version) && not (is_empty v.previous_binary) && v.good_since == 0

abbrev pending_file : Options → Env → String → Disk → StateFile → Done
pending_file o env reason d absent = (d, some no_pending_candidate)
pending_file o env reason d unreadable = (d, some unreadable_state)
pending_file o env reason d (state v) =
    if is_pending v then rollback o env reason d else (d, some no_pending_candidate)

unfoldable pub rollback_pending_candidate : Options → Env → String → Disk → Done
rollback_pending_candidate o env reason d = pending_file o env reason d d.file
