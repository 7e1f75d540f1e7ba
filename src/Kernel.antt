-- ===== src/Kernel.antt =====
-- src/kernel-calculus: the typed kernel calculus, its checker and its abstract machine.
pub mod Grade
pub mod Row
pub mod Types
pub mod Term
pub mod Diagnostic
pub mod Signature
pub mod Checker
pub mod Typing
pub mod Machine
mod Tests
