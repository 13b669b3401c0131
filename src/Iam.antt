-- ===== src/Iam.antt =====
-- pkg/iam: the authorization policy.
pub mod Types
pub mod Rules
pub mod Policy
pub mod AuditLog
pub mod Subject
pub mod Authorize
pub mod Coherence
pub mod Audited
pub mod Trail
pub mod Roles
pub mod Denials
pub mod Owners
pub mod Permits
pub mod Admission
pub mod State
pub mod Construction
pub mod Loaded
mod Sample
mod Examples
mod LoaderExamples
