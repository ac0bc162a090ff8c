-- ===== src/Ledger/Grpc.antt =====
-- cmd/ledger/grpc.go: the gRPC server over the ledger service. A request names one account; the
-- server adds the entry that balances it.
use fintech_ecosystem.Base.{String, Option, none, some, List, [], ◌∷◌, map}
use fintech_ecosystem.Base.Int.{ℤ, neg64}
use fintech_ecosystem.Ledger.Model.{Account, EntryRequest, TransactionRequest}
use fintech_ecosystem.Ledger.Store.{Db, Env, Error, Result, ok, err, get_account}
use fintech_ecosystem.Ledger.Service.{
  LedgerService, record_transaction, bulk_record_transactions, open_account,
}

-- proto/ledger: `RecordTransactionRequest`
pub record RecordTransactionRequest : Type 0 where
  pub account_id : String
  pub amount : ℤ
  pub currency : String
  pub description : String
  pub reference_id : String
  pub zone_id : String
  pub mode : String

pub record RecordTransactionResponse : Type 0 where
  pub transaction_id : String
  pub status : String

abbrev pub system_balancing : String
system_balancing = "system_balancing"

-- The two entries that `RecordTransaction` and `BulkRecordTransactions` build.
abbrev pub balanced_pair : String → ℤ → List EntryRequest
balanced_pair account_id amount =
    record { account_id = account_id; amount = amount; direction = "credit" }
    ∷ record { account_id = system_balancing; amount = neg64 amount; direction = "debit" }
    ∷ []

abbrev pub transaction_request : RecordTransactionRequest → TransactionRequest
transaction_request req = record {
  reference_id = req.reference_id;
  description = req.description;
  entries = balanced_pair req.account_id req.amount;
}

pub data Reply (A : Type 0) : Type 0 where
  reply : A → Reply A
  failed : Error → Reply A
  -- a nil pointer is dereferenced
  panic : Reply A

abbrev pub recorded_reply : Option Error → Reply RecordTransactionResponse
recorded_reply none = reply (record { transaction_id = ""; status = "recorded" })
recorded_reply (some e) = failed e

-- `LedgerGRPCServer.RecordTransaction`
unfoldable pub serve_record :
    Env → RecordTransactionRequest → LedgerService → Reply RecordTransactionResponse × LedgerService
serve_record env req s =
    let (e, s') = record_transaction env (transaction_request req) req.zone_id req.mode s in
    (recorded_reply e, s')

pub record CreateAccountRequest : Type 0 where
  pub name : String
  pub type : String
  pub currency : String
  pub zone_id : String
  pub mode : String

pub record CreateAccountResponse : Type 0 where
  pub account_id : String
  pub status : String

abbrev pub created_reply : Db → Result (Account × Db) → Reply CreateAccountResponse × Db
created_reply db (ok (acc, db')) = (reply (record { account_id = acc.id; status = "created" }), db')
created_reply db (err e) = (failed e, db)

-- `LedgerGRPCServer.CreateAccount`
unfoldable pub serve_create_account :
    Env → CreateAccountRequest → Db → Reply CreateAccountResponse × Db
serve_create_account env req db =
    created_reply db (open_account env req.name req.type req.currency none req.zone_id req.mode db)

abbrev pub first_zone : List RecordTransactionRequest → String × String
first_zone [] = ("", "")
first_zone (req ∷ _) = (req.zone_id, req.mode)

-- `LedgerGRPCServer.BulkRecordTransactions`: the zone and the mode of the first request are used
-- for all of them. A status is the error behind "error: ", or `none` for "recorded".
unfoldable pub serve_bulk :
    Env → List RecordTransactionRequest → LedgerService → List (Option Error) × LedgerService
serve_bulk env reqs s =
    let (zone_id, mode) = first_zone reqs in
    bulk_record_transactions env (map transaction_request reqs) zone_id mode s

pub record GetAccountResponse : Type 0 where
  pub account_id : String
  pub balance : ℤ
  pub currency : String

abbrev pub account_reply : Result (Option Account) → Reply GetAccountResponse
account_reply (err e) = failed e
account_reply (ok none) = panic
account_reply (ok (some acc)) =
    reply (record { account_id = acc.id; balance = acc.balance; currency = acc.currency })

-- `LedgerGRPCServer.GetAccount` reads the fields of the account that it got, without a test for nil.
unfoldable pub serve_get_account : Env → String → Db → Reply GetAccountResponse
serve_get_account env id db = account_reply (get_account env id db)
