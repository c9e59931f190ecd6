-- ===== src/Protocol.antt =====
-- pg_mimic/connection.py, the handlers of Query, Parse, Bind, Describe, Execute and Close, over the
-- application's session.
pub mod Action
pub mod Session
pub mod Values
pub mod Handlers
pub mod Quiet
pub mod Silent
pub mod Ends
pub mod Results
pub mod Steady
pub mod Agree
