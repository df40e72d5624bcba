-- ===== src/Wire.antt =====
-- The wire format of the servers: memory, byte order, message nodes and frames.
pub mod Memory
pub mod Host
pub mod Exec
pub mod Node
