-- ===== src/Ble.antt =====
pub mod Session
pub mod Controls
pub mod Timers
pub mod Passkey
