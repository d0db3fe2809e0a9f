-- ===== src/Kill.antt =====
-- src/uxon/app/kill.py: how a session is removed, from its captured identity to its record.
pub mod World
pub mod Target
pub mod Teardown
pub mod Finish
pub mod Expected
pub mod Remote
pub mod Harmless
pub mod Calls
pub mod Guarded
pub mod Gone
pub mod Answers
pub mod Report
pub mod Retained
pub mod Snapshot
pub mod Command
