-- ===== src/Cli.antt =====
-- dockfleet/cli: the configuration file, and the commands around the scheduler in the background.
pub mod Config
pub mod Background
