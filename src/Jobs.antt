-- ===== src/Jobs.antt =====
-- The store of jobs, tasks and nodes, and the scheduler over it (legacy/services_python/db,
-- legacy/services_python/scheduler.py).
pub mod Tables
pub mod Queue
pub mod Refresh
pub mod Tasks
pub mod Create
pub mod Admin
pub mod Nodes
pub mod Keys
pub mod Attempts
pub mod Late
pub mod Scheduler
mod Examples
