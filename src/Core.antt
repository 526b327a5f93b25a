-- ===== src/Core.antt =====
-- dockfleet/core: the orchestrator and the Docker command line that it drives.
pub mod Exec
pub mod Docker
pub mod Ports
pub mod Order
pub mod Orchestrator
pub mod Fleet
pub mod LogQueue
pub mod Stream
pub mod Listing
pub mod Monitor
pub mod Instance
