-- ===== src/Pool.antt =====
-- The pools of IOContextPoolServer and IOThreadPoolServer.
pub mod Joins
pub mod Contexts
pub mod Threads
pub mod Mains
