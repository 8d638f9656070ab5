-- ===== src/Tests.antt =====
-- Concrete runs, files and groups, and what the theorems say of them.
pub mod Fixtures
pub mod Snapshots
pub mod Reads
pub mod Runs
pub mod Attempts
pub mod Artifacts
pub mod Groups
pub mod Pools
pub mod Units
pub mod Circuits
pub mod Loops
pub mod EventLogs
pub mod WorkingTrees
pub mod Schedules
