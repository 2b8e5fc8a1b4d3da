-- ===== src/Examples.antt =====
-- Concrete inputs at which the theorems apply: a provider, its policy and files in memory.
mod Fixtures
mod Starts
mod Planning
mod States
mod Gates
mod Limits
mod Triggers
mod Windows
mod Disks
mod Restarts
mod Durability
mod Monitors
mod Journals
