-- ===== src/Wire/Messages.antt =====
-- pg_mimic/messages.py: the builders of backend messages and the parsers of frontend messages, and
-- `read_cstring` of types.py. `none` is the struct.error, UnicodeError or ValueError raised.
pub mod Builders
pub mod Parsers
pub mod Bind
pub mod Strings
pub mod Startup
