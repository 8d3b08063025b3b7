-- ===== src/Client.antt =====
-- The client of Part 2: Part2/src/client.
pub mod Parser
pub mod Arguments
pub mod Reservation
pub mod Api
pub mod Setup
pub mod Main
pub mod Tests
