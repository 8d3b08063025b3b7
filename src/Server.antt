-- ===== src/Server.antt =====
-- The event server of Part 2: Part2/src/server.
pub mod Store
pub mod EventList
pub mod Seats
pub mod Database
pub mod Operations
pub mod Invariant
pub mod Queue
pub mod Output
pub mod Session
pub mod Worker
pub mod Dump
pub mod Register
pub mod Tests
