-- ===== src/Tests.antt =====
-- Runs of the development at concrete inputs.
pub mod Data
pub mod Wire
pub mod Floats
pub mod Device
pub mod Automation
pub mod Pairing
pub mod Link
pub mod Settings
pub mod Tokens
pub mod Service
pub mod Prompt
