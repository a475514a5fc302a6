-- ===== src/Tests.antt =====
-- Runs of the theorems on small kernels and small data.
pub mod Kernel
pub mod Buffers
pub mod Calls
pub mod Watched
pub mod Delivered
pub mod Spawned
pub mod System
pub mod Owned
