-- ===== src/Archive.antt =====
-- internal/ops/archive.go: where the entries of an archive may be unpacked. `Paths` has the checks;
-- `Clean`, `Relative` and `Below` prove.
pub mod Paths
pub mod Clean
pub mod Relative
pub mod Below
