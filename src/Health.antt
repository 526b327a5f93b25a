-- ===== src/Health.antt =====
-- dockfleet/health: the rows of the database and what health checks write to them.
pub mod Models
pub mod Logs
pub mod Ingest
pub mod Status
pub mod Services
pub mod Schedule
pub mod Checker
pub mod Scheduler
pub mod Poll
pub mod Lock
pub mod Lifecycle
pub mod Queries
