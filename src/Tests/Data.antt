-- ===== src/Tests/Data.antt =====
-- Data for the tests: a database that refuses nothing, and a ledger of three accounts.
use fintech_ecosystem.Base.{String, none, some, List, [], ◌∷◌}
use fintech_ecosystem.Base.Int.{pos, negsuc}
use fintech_ecosystem.Ledger.Model.{Account, EntryRequest, TransactionRequest}
use fintech_ecosystem.Ledger.Store.{Db, Env}
use fintech_ecosystem.Ledger.Service.{LedgerService}

abbrev pub willing : Env
willing = record { refuses = λ _ _. none; new_id = λ _. "row"; marshal = λ _. "{}" }

abbrev pub account : String → Account
account id = record {
  id = id;
  zone_id = "z1";
  mode = "test";
  name = id;
  type = "asset";
  currency = "USD";
  balance = pos 0;
  user_id = none;
}

abbrev pub fresh_db : Db
fresh_db = record {
  accounts = account "a" ∷ account "b" ∷ account "user_u1" ∷ account "system_balancing" ∷ [];
  transactions = [];
  entries = [];
  outbox = [];
}

abbrev pub service : LedgerService
service = record { db = fresh_db; metrics = some [] }

abbrev pub amounts : List EntryRequest
amounts =
    record { account_id = "a"; amount = pos 100; direction = "debit" }
    ∷ record { account_id = "b"; amount = negsuc 99; direction = "credit" }
    ∷ []

abbrev pub request : TransactionRequest
request = record { reference_id = "ref1"; description = "rent"; entries = amounts }
