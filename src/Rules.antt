-- ===== src/Rules.antt =====
-- internal/rules: automation rules over telemetry.
pub mod Condition
pub mod Engine
pub mod Status
