-- ===== src/Guard.antt =====
-- What decides whether a request may go on: pkg/ratelimit, internal/fraud and internal/policy.
pub mod Limiter
pub mod Fraud
pub mod Policy
