-- ===== src/Auth.antt =====
-- internal/auth: client enrolment and tokens.
pub mod Pin
pub mod Windows
pub mod Pairing
pub mod Tokens
pub mod Files
pub mod Store
