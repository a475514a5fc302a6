-- ===== src/Os.antt =====
-- The boundary to the kernel: every call of libc that the crate makes, the kernel's answer, and
-- programs that make such calls.
--
-- The kernel is a parameter: a script of answers, each a function of the call that it meets. A
-- program that asks for more answers than the script has is `waiting` inside its last call.
mod Calls
mod Programs
mod Honest
mod Rules
pub mod Traces
pub mod Steps
pub mod Balance
pub mod Endings
unfoldable pub use Calls.*
unfoldable pub use Programs.*
pub use Honest.*
pub use Rules.*
