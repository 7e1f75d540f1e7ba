-- ===== src/Kernel/Machine.antt =====
-- src/kernel-calculus/machine.ts: the abstract machine of the kernel calculus.
mod State
mod Step
mod Run
pub mod Typing
pub mod Parts
pub mod Safety
pub mod Bounds
pub mod OneShot
pub mod Handlers
pub mod Resume
unfoldable pub use State.*
unfoldable pub use Step.*
unfoldable pub use Run.*
