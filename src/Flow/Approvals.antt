-- ===== src/Flow/Approvals.antt =====
-- internal/flow/domain/approval_ledger.go: `ApprovalLedgerService` over the ledger service.
use fintech_ecosystem.Base.{String, ◌<>◌, ◌≡◌, refl, Bool, Option, some, [], ◌∷◌, if◌then◌else◌}
use fintech_ecosystem.Base.Int.{pos, add64, wrap64, ◌+ℤ◌}
use fintech_ecosystem.Ledger.Model.{TransactionRequest}
use fintech_ecosystem.Ledger.Store.{Env, Error, not_balanced}
use fintech_ecosystem.Ledger.Service.{
  LedgerService, record_transaction, attempt, check_balanced, sum64,
}

pub record ApprovalLedgerEntry : Type 0 where
  pub execution_id : String
  pub node_id : String
  pub flow_id : String
  pub approver_user_id : String
  pub required_role : String
  pub approved : Bool
  pub timestamp : String

-- `hmac` and `sha256` under the secret of the service, on the canonical text.
abbrev pub Signer : Type 0
Signer = String → String

-- `signEntry`; the timestamp is in RFC 3339 already.
unfoldable pub sign_entry : Signer → ApprovalLedgerEntry → String
sign_entry sign e = sign (
    e.execution_id
    <> "|"
    <> e.node_id
    <> "|"
    <> e.flow_id
    <> "|"
    <> e.approver_user_id
    <> "|"
    <> e.required_role
    <> "|"
    <> (if e.approved then "true" else "false")
    <> "|"
    <> e.timestamp)

abbrev pub description : ApprovalLedgerEntry → String
description e =
    "Approval "
    <> (if e.approved then "GRANTED" else "REJECTED")
    <> ": execution="
    <> e.execution_id
    <> ", approver="
    <> e.approver_user_id
    <> ", role="
    <> e.required_role

abbrev pub approval_request : ApprovalLedgerEntry → TransactionRequest
approval_request e = record {
  reference_id = "approval_" <> e.execution_id <> "_" <> e.node_id;
  description = description e;
  entries =
      record { account_id = "approval_pending"; amount = pos 1; direction = "debit" }
      ∷ record { account_id = "approval_completed"; amount = pos 1; direction = "credit" }
      ∷ [];
}

-- `RecordApprovalDecision`: the signature is computed and stored nowhere.
unfoldable pub record_approval_decision :
    Env → ApprovalLedgerEntry → String → String → LedgerService → Option Error × LedgerService
record_approval_decision env e zone_id mode s =
    record_transaction env (approval_request e) zone_id mode s

-- No approval decision reaches the ledger: the amounts of the two entries, 1 and 1, do not sum to
-- zero, so that the call ends in the ledger's error on unbalanced entries and leaves the database
-- as it was, whatever the decision, the database and its refusals are.
pub approval_never_recorded :
    (env : Env) (e : ApprovalLedgerEntry) (zone_id mode : String) (s : LedgerService)
    → ((record_approval_decision env e zone_id mode s).0 ≡ some not_balanced)
      × ((record_approval_decision env e zone_id mode s).1.db ≡ s.db)
unfolding record_approval_decision record_transaction attempt check_balanced sum64 add64 wrap64 ◌+ℤ◌
approval_never_recorded env e zone_id mode s = (refl, refl)
