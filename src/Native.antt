-- ===== src/Native.antt =====
-- The backend that runs commands on the host itself (native/).
pub mod Paths
pub mod Workspace
pub mod Sessions
pub mod Disk
mod Examples
pub mod Auth
pub mod Signals
pub mod Cowork
pub mod Backups
pub mod State
