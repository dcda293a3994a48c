-- ===== src/Config.antt =====
-- internal/config/config.go, the configuration file. `Data` has the configuration, its defaults and
-- its derived paths, `Files` Save and Load; `Validity` and `Loading` prove.
pub mod Data
pub mod Files
pub mod Utf8
pub mod Validity
pub mod Loading
