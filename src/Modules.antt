-- ===== src/Modules.antt =====
-- pkg/registry: the registry of modules and its validation.
pub mod Types
pub mod Fields
pub mod Dependencies
pub mod Validate
pub mod Graph
pub mod Search
pub mod Cycles
pub mod Index
pub mod Acceptance
pub mod Accepted
pub mod Examples
