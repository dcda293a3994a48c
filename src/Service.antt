-- ===== src/Service.antt =====
-- internal/service/service.go: the handler of the broker, which puts the configuration, the task
-- manager and the operations together. `Data` has its state and results, `Configuration`
-- configCall, `TaskCalls` taskCall, `Call` Call, Status and runTask; the others prove.
pub mod Data
pub mod Configuration
pub mod TaskCalls
pub mod Call
pub mod Synced
pub mod Restart
pub mod Routes
pub mod Reach
pub mod Logs
