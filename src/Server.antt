-- ===== src/Server.antt =====
-- pg_mimic/server.py: the parts of PgServer that connections share.
pub mod Registry
pub mod Husks
pub mod Connections
pub mod Cancel
pub mod Aim
pub mod Negotiate
pub mod Params
