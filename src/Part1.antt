-- ===== src/Part1.antt =====
-- The event manager of Part 1: Part1/src.
pub mod Store
pub mod EventList
pub mod Seats
pub mod Operations
pub mod Database
pub mod Io
pub mod Output
pub mod Threads
pub mod Parser
pub mod Arguments
pub mod Waits
pub mod Turns
mod Tests
