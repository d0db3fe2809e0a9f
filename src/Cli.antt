-- ===== src/Cli.antt =====
-- The command line: domain/args.py, the argv part of infra/audit.py, and cli/parsing.py.
pub mod Args
pub mod Correlation
pub mod Walk
pub mod Common
pub mod Listing
pub mod RunLike
pub mod Target
pub mod Render
pub mod Dispatch
pub mod Aliases
pub mod Consistency
pub mod Peer
