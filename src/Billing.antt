-- ===== src/Billing.antt =====
-- internal/billing: subscriptions and the worker that renews them.
pub mod Calendar
pub mod Store
pub mod Service
pub mod Worker
pub mod Renewal
pub mod Charges
