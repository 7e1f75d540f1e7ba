-- ===== src/Concurrency.antt =====
-- src/structured-concurrency: the reference oracle for tasks and scopes.
pub mod Schema
pub mod Oracle
pub mod Run
pub mod Tables
pub mod Transitions
pub mod Ownership
pub mod Changes
pub mod Joins
pub mod Cancels
pub mod Dispatches
pub mod Report
pub mod Rejections
pub mod Scopes
pub mod Progress
pub mod Closing
pub mod Exits
pub mod Requests
mod Tests
