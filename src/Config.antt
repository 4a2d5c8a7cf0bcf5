-- ===== src/Config.antt =====
-- Settings of backend/brup/config.py. The children hold the parts.
pub mod HeaderRules
pub mod Overrides
pub mod Scope
mod Tests
