-- ===== src/Config.antt =====
-- internal/config: the configuration of the daemon.
pub mod Rule
pub mod Uci
