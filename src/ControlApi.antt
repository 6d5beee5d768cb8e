-- ===== src/ControlApi.antt =====
-- The HTTP control API of ino_a9_bridge/src/wificam_bridge/control_api.py.
pub mod Values
pub mod Store
pub mod Handle
pub mod Examples
