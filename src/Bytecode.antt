-- ===== src/Bytecode.antt =====
-- src/kernel-bytecode: the compiler to instruction graphs and the machine that runs them.
mod Instruction
pub mod Graph
pub mod Compiler
pub mod Vm
pub mod HandlerReturn
mod Tests
unfoldable pub use Instruction.*
