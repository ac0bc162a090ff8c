-- ===== src/Ledger.antt =====
-- The double-entry ledger: internal/ledger (domain service and SQL repository) and the three ways
-- into it in cmd/ledger (gRPC, HTTP, Kafka).
pub mod Model
pub mod Store
pub mod Service
pub mod Posting
pub mod Replay
pub mod Conservation
pub mod Trial
pub mod Refinement
pub mod Pair
pub mod Events
pub mod Grpc
pub mod Currency
