-- ===== src/Vm.antt =====
-- The backend that runs guests in a virtual machine: package vm, but for the channel to the guest.
pub mod Paths
pub mod Helper
pub mod Vfs
pub mod Bundles
pub mod Images
pub mod Artifacts
pub mod Backend
pub mod Qemu
pub mod Qmp
pub mod Preflight
mod Examples
