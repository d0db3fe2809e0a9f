-- ===== src/Session.antt =====
-- domain/session.py: the identity, the names and the allocation of sessions.
pub mod Json
pub mod Identity
pub mod Info
pub mod Names
