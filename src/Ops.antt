-- ===== src/Ops.antt =====
-- internal/ops, what its tools share: arguments, names, results, Execute and the background tasks, for
-- which `Active`, `Limit`, `Bounded` and `Capacity` prove.
pub mod Numbers
pub mod Values
pub mod Naming
pub mod Outcome
pub mod Background
pub mod TaskControl
pub mod Dispatch
pub mod Runs
pub mod Active
pub mod Limit
pub mod Bounded
pub mod Capacity
