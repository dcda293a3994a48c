-- ===== src/Packages.antt =====
-- internal/ops/package_archive.go: which of the APKs in an archive a device needs. `Wire` reads the
-- protobuf of toc.pb, `Targets` and `Contents` its messages, `Select` chooses; `Varints` and
-- `RoundTrip` prove.
pub mod Wire
pub mod Targets
pub mod Contents
pub mod Select
pub mod Varints
pub mod RoundTrip
