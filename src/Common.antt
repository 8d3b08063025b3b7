-- ===== src/Common.antt =====
-- The code that client and server share: Part2/src/common, and what it needs of the kernel.
pub mod Kernel
pub mod Bytes
pub mod Protocol
pub mod Io
pub mod Tests
