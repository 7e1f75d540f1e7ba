-- ===== src/Bytecode/Vm.antt =====
-- src/kernel-bytecode/vm.ts: the machine that runs an instruction graph.
mod State
mod Step
mod Run
pub mod Reach
pub mod Bounds
pub mod Fuel
pub mod Resolved
pub mod OneShot
unfoldable pub use State.*
unfoldable pub use Step.*
unfoldable pub use Run.*
