-- ===== src/Spawn.antt =====
-- spawn/mod.rs: processes, their options, and the loop that watches one to its end.
pub mod Process
pub mod Options
pub mod WaitLoop
pub mod Pipes
pub mod Posix
pub mod Fork
pub mod Start
pub mod Wiring
