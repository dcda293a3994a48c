-- ===== src/Schedule.antt =====
-- internal/ops/schedule.go, the scheduler. `Cron` has the cron expressions, `Data` the schedules and
-- their next times, `Parse` their arguments, `Store` the operations of the tool, `Runs` the loop;
-- `Fields`, `Least`, `Later`, `Due` and `Map` prove.
pub mod Cron
pub mod Fields
pub mod Least
pub mod Data
pub mod Parse
pub mod Store
pub mod Runs
pub mod Later
pub mod Due
pub mod Map
