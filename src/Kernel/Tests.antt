-- ===== src/Kernel/Tests.antt =====
-- Tests of src/kernel-calculus, and the theorems at small programs.
pub mod Programs
mod Checking
pub mod Running
mod Resuming
