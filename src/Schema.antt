-- ===== src/Schema.antt =====
-- internal/schema/registry.go: the tools, what an invocation of one must have, and the JSON Schema
-- of its arguments. `Sound` and `Contract` prove.
pub mod Specs
pub mod Invocation
pub mod Parameters
pub mod Catalog
pub mod Actions
pub mod Sound
pub mod Contract
