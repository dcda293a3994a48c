-- ===== src/Examples/Supervisor.antt =====
-- Rounds, versions and child processes (internal/supervisor/supervisor.go) on which the theorems
-- about them say something.
use zcr521_ai_mcp.Supervisor.Promotion.{
  failed_start_leaves_none, stable_not_rolled_back, rolled_back_once, is_file, rollback_needs,
}
use zcr521_ai_mcp.Supervisor.Backoff.{crash_loop_stops, backoffs, restart_waits_double}
use zcr521_ai_mcp.Supervisor.Options.{Options}
use zcr521_ai_mcp.Common.{
  List, codes, false, ◌≡◌, true, ◌∷◌, ◌++◌, some, [], arith, text_eq, refl, has_prefix,
}
use zcr521_ai_mcp.Supervisor.Restarts.{stopped, run_rounds, Round, first_round, decide, drop_old}
use zcr521_ai_mcp.Supervisor.Pair.{Start, start_pair, start_frontend, is_alive}
use zcr521_ai_mcp.Supervisor.Versions.{
  Env, Disk, VersionState, state, mark_stable, rollback_pending_candidate, no_version, present,
  rolled_back, rollback, rollback_state, no_pending_candidate, is_pending, escapes, stays_inside,
}

abbrev options : Options
options = record {
  executable = codes "/m/zcr521d";
  state_dir = codes "/s";
  frontend_uid = 2000;
  frontend_gid = 2000;
  stable_after = 300;
  failure_window = 600;
  max_failures = 3;
  initial_delay = 1;
  max_delay = 3;
}

abbrev two_rounds : List Round
two_rounds =
    record { started = 0; now = 1; checked = 1; rolled_back = false }
    ∷ record { started = 2; now = 3; checked = 3; rolled_back = false }
    ∷ []

abbrev three_rounds : List Round
three_rounds = two_rounds ++ record { started = 5; now = 6; checked = 6; rolled_back = false } ∷ []

restart_waits_double_example :
    (run_rounds options (first_round options) two_rounds).waits ≡ backoffs options 0 2
unfolding run_rounds first_round decide drop_old
restart_waits_double_example =
    restart_waits_double options two_rounds (omega arith) (omega arith, (omega arith, tt)) refl

crash_loop_stops_example : (run_rounds options (first_round options) three_rounds).end ≡ stopped
crash_loop_stops_example =
    crash_loop_stops options 1 three_rounds (omega arith)
      (
        (omega arith, omega arith, omega arith, refl),
        (
          (omega arith, omega arith, omega arith, refl),
          ((omega arith, omega arith, omega arith, refl), tt),
        ),
      )
      (omega arith)

abbrev candidate : VersionState
candidate = record no_version {
  candidate_version = codes "2";
  candidate_binary = codes "/m/zcr521d";
  previous_version = codes "1";
  previous_binary = codes "/s/versions/old";
}

abbrev calm : Env
calm = record {
  now = 9;
  version = codes "2";
  info = present true 10;
  relative = some (codes "old");
  restores = true;
  writes = true;
  execs = true;
}

abbrev pending : Disk
pending = record { file = state candidate; restored = false }

stable_not_rolled_back_example :
    let stable = (mark_stable options calm pending).0 in
    rollback_pending_candidate options calm "exit" stable ≡ (stable, some no_pending_candidate)
stable_not_rolled_back_example = stable_not_rolled_back options calm calm "exit" pending refl

abbrev after_rollback : Disk
after_rollback = record { file = state (rolled_back options 9 "exit" candidate); restored = true }

rolled_back_once_example :
    rollback_pending_candidate options calm "again" after_rollback
    ≡ (after_rollback, some no_pending_candidate)
unfolding rollback_pending_candidate rollback rollback_state rolled_back is_pending no_version
    text_eq escapes has_prefix
rolled_back_once_example =
    rolled_back_once options calm calm "exit" "again" pending after_rollback refl

rollback_needs_example :
    (is_pending candidate ≡ true)
    × (text_eq candidate.previous_binary options.executable ≡ false)
    × (stays_inside calm.relative ≡ true)
    × (is_file calm.info ≡ true)
unfolding rollback_pending_candidate rollback rollback_state rolled_back is_pending no_version
    text_eq escapes has_prefix
rollback_needs_example = rollback_needs options calm "exit" pending candidate refl refl refl

abbrev bad_start : Start
bad_start = record {
  broker_log = true;
  frontend_log = true;
  broker_starts = true;
  socket_ready = true;
  config_read = true;
  config_written = true;
  transfer_made = true;
  frontend_starts = false;
  fallback_starts = true;
  pid_written = false;
}

failed_start_leaves_none_example :
    (is_alive (start_pair bad_start).0.broker ≡ false)
    × (is_alive (start_pair bad_start).0.frontend ≡ false)
unfolding start_pair start_frontend
failed_start_leaves_none_example = failed_start_leaves_none bad_start "write frontend pid" refl
