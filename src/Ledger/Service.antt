-- ===== src/Ledger/Service.antt =====
-- internal/ledger/domain/service.go: `LedgerService` over the SQL repository.
use fintech_ecosystem.Base.{String, Option, none, some, List, [], ◌∷◌, ◌++◌, str_eq, if◌then◌else◌}
use fintech_ecosystem.Base.Int.{ℤ, pos, add64, is_zero}
use fintech_ecosystem.Ledger.Model.{
  Account, Transaction, Entry, EntryRequest, TransactionRequest, Recorded,
}
use fintech_ecosystem.Ledger.Store.{
  Db, Env, Error, not_balanced, currency_check, account_not_found, multi_currency,
  failed_idempotency, failed_transaction, failed_entry, failed_outbox, Result, ok, err, ◌>>=◌, ◌>>◌,
  wrap_error, create_account, get_account, begin, create_transaction, create_entry,
  check_idempotency, create_outbox_event, commit,
}

-- `sum += e.Amount` on int64.
unfoldable pub sum64 : ℤ → List EntryRequest → ℤ
sum64 sum [] = sum
sum64 sum (e ∷ es) = sum64 (add64 sum e.amount) es

unfoldable pub check_balanced : List EntryRequest → Result (Unit {0})
unfolding sum64
check_balanced es = if is_zero (sum64 (pos 0) es) then ok tt else err not_balanced

abbrev pub known : String → Option Account → Result Account
known id none = err (account_not_found id)
known id (some acc) = ok acc

-- The `if commonCurrency == ""` of the loop: the next value of `commonCurrency`, or the error.
unfoldable pub agree : String → String → Account → Result String
agree common id acc =
    if str_eq common ""
    then ok acc.currency
    else (if str_eq common acc.currency
        then ok common
        else err (multi_currency id acc.currency common))

-- The loop of "Validate Currency Consistency".
unfoldable pub check_currencies : Env → Db → String → List EntryRequest → Result (Unit {0})
check_currencies env db common [] = ok tt
check_currencies env db common (e ∷ es) = do
  found ← wrap_error (currency_check e.account_id) (get_account env e.account_id db)
  acc ← known e.account_id found
  next ← agree common e.account_id acc
  check_currencies env db next es

abbrev pub entry_of : String → EntryRequest → Entry
entry_of id e = record {
  transaction_id = id;
  account_id = e.account_id;
  amount = e.amount;
  direction = e.direction;
}

-- The loop of "Insert Entries".
unfoldable pub create_entries : Env → String → List EntryRequest → Db → Result Db
create_entries env id [] db = ok db
create_entries env id (e ∷ es) db = do
  db' ← wrap_error (failed_entry e.account_id) (create_entry env (entry_of id e) db)
  create_entries env id es db'

abbrev pub transaction_of : TransactionRequest → String → String → Transaction
transaction_of req zone_id mode = record {
  id = "";
  zone_id = zone_id;
  mode = mode;
  reference_id = req.reference_id;
  description = req.description;
}

abbrev pub recorded_of : TransactionRequest → String → String → String → Recorded
recorded_of req zone_id mode id = record {
  id = id;
  reference_id = req.reference_id;
  description = req.description;
  entries = req.entries;
  zone_id = zone_id;
  mode = mode;
}

-- Steps 4 to 6 and the commit, in the context of the database transaction.
unfoldable pub post : Env → TransactionRequest → String → String → Db → Result Db
post env req zone_id mode db = do
  (id, db1) ←
      wrap_error failed_transaction (create_transaction env (transaction_of req zone_id mode) db)
  db2 ← create_entries env id req.entries db1
  db3 ← wrap_error failed_outbox (
      create_outbox_event env "transaction.recorded" (env.marshal (recorded_of req zone_id mode id))
        db2)
  commit env db3

-- `RecordTransaction` up to its result: `ok` is `nil`, with the database as it is left.
unfoldable pub attempt : Env → TransactionRequest → String → String → Db → Result Db
attempt env req zone_id mode db = do
  check_balanced req.entries
  check_currencies env db "" req.entries
  tx ← begin env db
  existing ← wrap_error failed_idempotency (check_idempotency env req.reference_id tx)
  if str_eq existing "" then post env req zone_id mode tx else ok db

-- The service: its database, and what `metrics` was told (`none` if it is nil).
pub record LedgerService : Type 0 where
  pub db : Db
  pub metrics : Option (List String)

abbrev pub tell : String → Option (List String) → Option (List String)
tell status none = none
tell status (some told) = some (told ++ status ∷ [])

-- The deferred calls: the metrics see the returned error, and an open transaction is rolled back.
abbrev pub conclude : Result Db → LedgerService → Option Error × LedgerService
conclude (ok db) s = (none, record { db = db; metrics = tell "success" s.metrics })
conclude (err e) s = (some e, record s { metrics = tell "error" s.metrics })

-- `LedgerService.RecordTransaction`
unfoldable pub record_transaction :
    Env → TransactionRequest → String → String → LedgerService → Option Error × LedgerService
record_transaction env req zone_id mode s = conclude (attempt env req zone_id mode s.db) s

-- `LedgerService.BulkRecordTransactions`
unfoldable pub bulk_record_transactions :
    Env
    → List TransactionRequest
    → String
    → String
    → LedgerService
    → List (Option Error) × LedgerService
bulk_record_transactions env [] zone_id mode s = ([], s)
bulk_record_transactions env (req ∷ reqs) zone_id mode s =
    let (e, s1) = record_transaction env req zone_id mode s in
    let (es, s2) = bulk_record_transactions env reqs zone_id mode s1 in (e ∷ es, s2)

-- `LedgerService.CreateAccount`
unfoldable pub open_account :
    Env → String → String → String → Option String → String → String → Db → Result (Account × Db)
open_account env name type currency user_id zone_id mode db = do
  (acc, db') ←
      create_account env
        (record {
          id = "";
          zone_id = zone_id;
          mode = mode;
          name = name;
          type = type;
          currency = currency;
          balance = pos 0;
          user_id = user_id;
        })
        db
  ok (record acc { balance = pos 0 }, db')
