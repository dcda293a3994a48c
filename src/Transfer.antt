-- ===== src/Transfer.antt =====
-- internal/frontend/transfer.go, the resumable upload and download store. `Syntax` has the parsing of
-- what clients send, `Data` the records and the state on disk, `Uploads` and `Artifacts` the calls,
-- `Http` the requests; the other modules prove.
pub mod Syntax
pub mod Data
pub mod Uploads
pub mod Artifacts
pub mod Http
pub mod Files
pub mod Log
pub mod Chunks
pub mod Completion
pub mod Sessions
pub mod Ranges
pub mod Names
