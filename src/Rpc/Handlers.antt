-- ===== src/Rpc/Handlers.antt =====
-- The handlers of pipe/handlers.go.
pub mod Vm
pub mod Calls
