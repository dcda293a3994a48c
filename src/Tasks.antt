-- ===== src/Tasks.antt =====
-- internal/tasks/manager.go, the durable task manager. `Data` has its types and state, `Client` the
-- calls of a client, `Worker` the goroutine of a task, `Restart` loading and resuming, `System` the
-- interleavings of all of these; the other modules prove.
pub mod Data
pub mod Client
pub mod Worker
pub mod Restart
pub mod System
pub mod Heavy
pub mod Wakeups
pub mod Workers
pub mod Loading
pub mod Slots
pub mod Limits
pub mod Changes
pub mod Lives
pub mod Links
pub mod Boot
pub mod Finality
pub mod Identity
pub mod Recovery
