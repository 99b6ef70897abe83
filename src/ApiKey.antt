-- ===== src/ApiKey.antt =====
-- The API keys: their table, scopes, tokens, and the gate before the mail interface.
pub mod Store
pub mod Revocation
pub mod Scopes
pub mod Token
pub mod Gate
pub mod Admission
pub mod Refusal
pub mod Mint
pub mod Revoke
pub mod Compensation
mod Tests
mod Runs
