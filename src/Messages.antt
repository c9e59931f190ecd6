-- ===== src/Messages.antt =====
-- pg_mimic/messages.py: the messages of the wire protocol.
pub mod Backend
