-- ===== src/Tests.antt =====
-- Concrete runs of the definitions: a server with fresh connections, and the theorems at examples.
mod Fixtures
mod Sessions
mod Bytes
mod Arrays
mod Protocol
mod Copying
mod Connections
