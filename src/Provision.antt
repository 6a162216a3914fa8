-- ===== src/Provision.antt =====
-- provision/: what brings the registry to what the registrar expects.
pub mod Diff
pub mod Update
pub mod Expected
mod Examples
