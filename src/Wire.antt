-- ===== src/Wire.antt =====
-- The bytes on the socket: types.py's integers and stream.py's frames. A byte is a number below 256.
pub mod Ints
pub mod Stream
pub mod Utf8
pub mod Reader
pub mod Messages
