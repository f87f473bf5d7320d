-- ===== src/Runtime.antt =====
-- runtime_v3.rs: the daemon's peer cache, its single-flight guard, application frames and wire.
pub mod Peers
pub mod Coordinator
pub mod App
pub mod Route
