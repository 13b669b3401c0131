-- ===== src/Drill.antt =====
-- pkg/backup/drill: the transaction of a backup and restore drill.
pub mod Steps
pub mod Types
pub mod Patterns
pub mod Instant
pub mod Digest
pub mod Plans
pub mod Responses
pub mod Journal
pub mod Binding
pub mod Receipts
pub mod Store
pub mod Loop
pub mod Engine
pub mod Rollback
pub mod Phases
pub mod Appends
pub mod Rounds
pub mod Completion
pub mod Admitted
pub mod Preflight
pub mod Repeat
pub mod Undo
pub mod Undone
pub mod Targets
mod Sample
mod Examples
