-- ===== src/Supervisor/Promotion.antt =====
-- The candidate versions and the child processes of internal/supervisor/supervisor.go.
use zcr521_ai_mcp.Supervisor.Options.{Options}
use zcr521_ai_mcp.Supervisor.Versions.{
  mark_stable, rollback_pending_candidate, is_pending, rollback, rollback_state, rolled_back, Env,
  Disk, VersionState, state, no_pending_candidate, stays_inside, present, BinaryInfo, missing,
}
use zcr521_ai_mcp.Supervisor.Pair.{
  start_pair, stop_broker, stop_frontend, Start, is_alive, returned,
}
use zcr521_ai_mcp.Common.{Bool, String, ◌≡◌, true, none, some, false, text_eq, arith, ◌&&◌, ltb}

-- A version that markStable has written down is not rolled back by a later failure.
pub stable_not_rolled_back :
    (o : Options) (env later : Env) (reason : String) (d : Disk)
    → env.writes ≡ true
    → let stable = (mark_stable o env d).0 in
      rollback_pending_candidate o later reason stable ≡ (stable, some no_pending_candidate)
unfolding mark_stable rollback_pending_candidate is_pending
stable_not_rolled_back o env later reason d w = ground arith

-- A candidate is rolled back once: after a rollback that succeeds, no later failure rolls anything
-- back.
pub rolled_back_once :
    (o : Options) (env later : Env) (reason reason' : String) (d d' : Disk)
    → rollback_pending_candidate o env reason d ≡ (d', none)
    → rollback_pending_candidate o later reason' d' ≡ (d', some no_pending_candidate)
unfolding rollback_pending_candidate rollback rollback_state rolled_back is_pending
rolled_back_once o env later reason reason' d d' e = ground arith

-- A regular file that is not empty.
abbrev pub is_file : BinaryInfo → Bool
is_file missing = false
is_file (present is_regular size) = is_regular && ltb 0 size

-- What a rollback needs: if it has put a binary back where none was put back before, a candidate was
-- pending, and the previous binary is another file than the active one, a regular file that is not
-- empty, below the versions directory.
pub rollback_needs :
    (o : Options) (env : Env) (reason : String) (d : Disk) (v : VersionState)
    → d.file ≡ state v
    → d.restored ≡ false
    → (rollback_pending_candidate o env reason d).0.restored ≡ true
    → (is_pending v ≡ true)
      × (text_eq v.previous_binary o.executable ≡ false)
      × (stays_inside env.relative ≡ true)
      × (is_file env.info ≡ true)
unfolding rollback_pending_candidate rollback rollback_state
rollback_needs o env reason d v e h k = ground arith

-- Every way in which the start of a round fails leaves no child process alive.
pub failed_start_leaves_none :
    (s : Start) (reason : String)
    → (start_pair s).1 ≡ returned reason
    → (is_alive (start_pair s).0.broker ≡ false) × (is_alive (start_pair s).0.frontend ≡ false)
unfolding start_pair stop_broker stop_frontend
failed_start_leaves_none s reason e = ground arith
