-- ===== src/Waypoints/Proto.antt =====
-- waypoints/proto.rs: the messages of the channel and their wire codec.
pub mod Messages
pub mod Decode
pub mod Frames
pub mod RoundTrip
pub mod Safety
pub mod Encode
pub mod Layout
