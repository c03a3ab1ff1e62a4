-- ===== src/Rpc/Params.antt =====
-- The parameter structs of pipe/handlers.go: two child modules, one for the methods that act on
-- the VM and on its disks, one for those that act on a process, a file or the guest.
mod Vm
mod Calls
unfoldable pub use Vm.*
unfoldable pub use Calls.*
