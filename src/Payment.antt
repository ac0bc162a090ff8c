-- ===== src/Payment.antt =====
-- Payments: internal/payment (models, service, SQL repository) and cmd/payments/handlers.go.
pub mod Store
pub mod Handlers
pub mod Split
pub mod Lifecycle
pub mod Settlement
pub mod Keys
pub mod Idempotency
