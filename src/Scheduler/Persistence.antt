-- ===== src/Scheduler/Persistence.antt =====
-- src/scheduler/persistence.rs: the files in which the scheduler keeps its store.
pub mod Format
pub mod Binds
pub mod Account
pub mod Log
pub mod Commit
pub mod Recover
pub mod Restart
pub mod Storage
