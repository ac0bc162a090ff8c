-- ===== src/Flow.antt =====
-- Flows: internal/flow/domain (the runner, its default handlers, resumption and the approval
-- ledger).
pub mod Model
pub mod Runner
pub mod Resume
pub mod Termination
pub mod Loop
pub mod Approvals
pub mod Decisions
