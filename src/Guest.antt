-- ===== src/Guest.antt =====
-- The channel to the guest of vm/bridge.go: its messages, and the bridge that matches replies to
-- requests.
pub mod Message
pub mod Bridge
mod Examples
