-- ===== src/Registrar.antt =====
-- lib/: the approval workflow of the registrar.
pub mod State
pub mod Model
pub mod Signature
pub mod Verify
pub mod Store
pub mod Approval
pub mod Decide
pub mod Request
pub mod Revision
pub mod Lifecycle
pub mod Cancel
pub mod Compare
mod Examples
