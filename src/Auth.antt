-- ===== src/Auth.antt =====
-- Identity: internal/auth (users, tokens, organizations, API keys, OAuth) and cmd/auth.
pub mod Model
pub mod Store
pub mod Tables
pub mod Service
pub mod Oauth
pub mod Authorize
pub mod Exchange
pub mod Grant
pub mod Handlers
pub mod Recovery
pub mod Keys
pub mod Teams
pub mod Sessions
pub mod KeyLife
