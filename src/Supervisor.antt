-- ===== src/Supervisor.antt =====
-- internal/supervisor/supervisor.go, which keeps the broker and the frontend alive. `Options` has the
-- policy, `Restarts` the loop of Run, `Pair` the two child processes of one round, `Versions` the
-- promotion and the rollback of a candidate; `Backoff` proves about the loop, `Promotion` about versions.
pub mod Options
pub mod Restarts
pub mod Pair
pub mod Versions
pub mod Backoff
pub mod Promotion
