-- ===== src/Access.antt =====
-- internal/frontend/security.go: who may talk to the frontend. `Addresses` has what it uses of package
-- net, `Policy` its parts, `Origins` and `Validate` its decision; `Vetting` and `Decision` prove.
pub mod Addresses
pub mod Policy
pub mod Origins
pub mod Validate
pub mod Vetting
pub mod Decision
