-- ===== src/Fd.antt =====
-- reactor/mod.rs: the descriptor `Fd`.
mod Defs
mod Retry
mod Effects
pub mod Closing
unfoldable pub use Defs.*
pub use Retry.*
pub use Effects.*
