-- ===== src/Middleware.antt =====
-- pg_mimic/middleware.py: what the statements that the middleware answers do when they execute.
-- Recognising a statement in its text (the regular expressions) is not modelled: a statement is
-- the `Command` that it was recognised as.
pub mod Effect
pub mod Settings
pub mod Transactions
pub mod Listen
pub mod Execute
pub mod Guard
pub mod Validity
pub mod Inside
pub mod Commit
