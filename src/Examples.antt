-- ===== src/Examples.antt =====
-- Concrete configurations, rows and worlds; the theorems applied to them, and tests.
mod Data
mod Walks
mod Rows
mod Restarts
mod Passes
mod Fleet
mod Logs
mod Locks
mod PortMappings
mod Counts
mod Queues
mod Listing
mod Stamps
mod Pages
mod Lifecycles
mod Checks
mod Streams
mod Fields
