-- ===== src/Proto.antt =====
-- internal/proto: the frames of the Link-Power BLE protocol, without any input or output.
pub mod Error
pub mod Frames
pub mod Features
pub mod Sfloat
pub mod Telemetry
pub mod Controls
pub mod Schedule
pub mod Lifecycle
