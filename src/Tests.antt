-- ===== src/Tests.antt =====
-- The theorems at concrete inputs.
mod Data
mod Ledger
mod Wallet
mod Payment
mod Resilience
mod Guard
mod Flow
mod Auth
mod Billing
mod Audit
mod Delivery
mod Zones
