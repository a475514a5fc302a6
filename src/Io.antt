-- ===== src/Io.antt =====
-- io/: the buffers of a process's output and input, and `DrainState`, which owns its pipes.
pub mod Buffer
pub mod Writer
pub mod Drain
