-- ===== src/AdminStore.antt =====
-- The administrator's account, recovery codes, reset tokens, devices and security keys.
pub mod Defs
pub mod Codes
pub mod Accounts
pub mod Attempts
pub mod SingleUse
pub mod Tokens
mod Tests
