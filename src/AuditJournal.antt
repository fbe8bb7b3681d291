-- ===== src/AuditJournal.antt =====
-- internal/auditjournal: the security events that the agent records, in a chain of hashes.
pub mod Record
pub mod Verify
pub mod Journal
pub mod Chain
pub mod Degraded
mod Tests
