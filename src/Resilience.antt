-- ===== src/Resilience.antt =====
-- pkg/resilience, pkg/retry and pkg/webhook: what stands between a caller and a failing service.
pub mod Breaker
