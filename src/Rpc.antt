-- ===== src/Rpc.antt =====
-- The RPC layer of package pipe: the backend interface of pipe/server.go, the requests and
-- handlers of pipe/handlers.go, and the connection loop of pipe/server.go.
pub mod Backend
pub mod Params
pub mod Message
pub mod Base64
pub mod Handlers
pub mod Dispatch
pub mod Serve
mod Examples
