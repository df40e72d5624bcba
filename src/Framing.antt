-- ===== src/Framing.antt =====
-- How a session turns the bytes of its socket into messages. `Stream` is the specification, a
-- machine that takes one byte at a time; `Reader` is the loop of HandleRead over whole chunks.
pub mod Protocol
pub mod Stream
pub mod Reader
