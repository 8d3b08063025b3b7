-- ===== src/Server/Tests.antt =====
-- Runs of the model of Part2/src/server, and the theorems at concrete inputs.
pub mod State
mod Seats
mod Operations
pub mod Queue
mod Session
mod Worker
mod Dump
