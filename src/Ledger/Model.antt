-- ===== src/Ledger/Model.antt =====
-- internal/ledger/domain/models.go, and what the service and the repository answer.
use fintech_ecosystem.Base.{Bool, String, Option, List}
use fintech_ecosystem.Base.Int.{ℤ}

-- `Balance` of a stored row is not read: `Store.get_account` computes it from the entries.
pub record Account : Type 0 where
  pub id : String
  pub zone_id : String
  pub mode : String
  pub name : String
  pub type : String
  pub currency : String
  pub balance : ℤ
  pub user_id : Option String

pub record Transaction : Type 0 where
  pub id : String
  pub zone_id : String
  pub mode : String
  pub reference_id : String
  pub description : String

pub record Entry : Type 0 where
  pub transaction_id : String
  pub account_id : String
  pub amount : ℤ
  pub direction : String

pub record EntryRequest : Type 0 where
  pub account_id : String
  pub amount : ℤ
  pub direction : String

pub record TransactionRequest : Type 0 where
  pub reference_id : String
  pub description : String
  pub entries : List EntryRequest

-- The map that `RecordTransaction` marshals for the outbox.
pub record Recorded : Type 0 where
  pub id : String
  pub reference_id : String
  pub description : String
  pub entries : List EntryRequest
  pub zone_id : String
  pub mode : String

pub record OutboxEvent : Type 0 where
  pub id : String
  pub event_type : String
  pub payload : String
  pub processed : Bool
