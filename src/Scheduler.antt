-- ===== src/Scheduler.antt =====
-- src/scheduler.rs, one module for each group of its functions.
pub mod Types
pub mod Time
pub mod Random
pub mod Plan
pub mod Admission
pub mod Store
pub mod Clock
pub mod Trigger
pub mod Reserve
pub mod Poll
pub mod Attempt
pub mod Open
pub mod Change
pub mod Gate
pub mod Persistence
pub mod Trace
