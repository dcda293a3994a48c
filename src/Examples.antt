-- ===== src/Examples.antt =====
-- The theorems at concrete inputs.
mod Tasks
mod Transfer
mod Supervisor
mod Config
mod Broker
mod Packages
mod Schedule
mod Archive
mod Access
mod Mcp
mod Service
mod Ops
mod Schema
