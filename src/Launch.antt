-- ===== src/Launch.antt =====
-- src/uxon/infra/launch_records.py: the records that tie a tmux session to the launch that made it.
pub mod Directory
pub mod Store
pub mod Record
pub mod Collect
