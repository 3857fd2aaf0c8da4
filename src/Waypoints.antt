-- ===== src/Waypoints.antt =====
-- waypoints/: the channel `confluxmap:waypoints_v1`.
pub mod Proto
pub mod Model
pub mod Session
pub mod Store
pub mod Persist
pub mod Service
pub mod Hub
mod Tests
