-- ===== src/Delivery.antt =====
-- Deliveries that fail: pkg/webhook/dlq.go and pkg/retry/retry.go.
pub mod Dlq
pub mod Exhaustion
pub mod Retry
pub mod Attempts
