-- ===== src/SharedMailbox.antt =====
-- The shared mailboxes of backend/internal/sharedmailbox/store.go and their handlers.
pub mod Defs
pub mod Handlers
pub mod Admin
pub mod Guards
pub mod Notes
pub mod Assignments
pub mod Deletion
pub mod Access
pub mod Counts
mod Tests
