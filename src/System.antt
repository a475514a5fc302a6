-- ===== src/System.antt =====
-- sys/mod.rs: the execution context of a process, and readahead.
pub mod Exec
pub mod Readahead
pub mod Signals
pub mod Shutdown
pub mod Procfs
pub mod ProcStatus
