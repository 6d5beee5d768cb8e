-- ===== src/Camera.antt =====
-- The LAN client of ino_a9_bridge/src/wificam_bridge/camera.py, in parts.
pub mod Rpc
pub mod Pending
pub mod Client
pub mod Reassembler
pub mod Examples
