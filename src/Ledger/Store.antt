-- ===== src/Ledger/Store.antt =====
-- internal/ledger/infrastructure/sql_repository.go: the tables and the statements that the
-- repository sends. The database itself is outside: `Env` says which statements it refuses (a lost
-- connection, a constraint of the schema), which ids it gives to new rows and how a payload is
-- marshalled. `created_at` columns are not modelled.
use fintech_ecosystem.Base.{
  ℕ, String, Bool, true, false, not, Option, none, some, List, [], ◌∷◌, ◌++◌, map, length, take,
  find, select, str_eq, if◌then◌else◌,
}
use fintech_ecosystem.Base.Int.{ℤ, pos, ◌+ℤ◌, is_int64}
use fintech_ecosystem.Ledger.Model.{Account, Transaction, Entry, Recorded, OutboxEvent}

pub record Db : Type 0 where
  pub accounts : List Account
  pub transactions : List Transaction
  pub entries : List Entry
  pub outbox : List OutboxEvent

-- What is sent to the database.
pub data Statement : Type 0 where
  begin_tx : Statement
  insert_account : Account → Statement
  select_account : String → Statement
  select_reference : String → Statement
  insert_transaction : Transaction → Statement
  insert_entry : Entry → Statement
  insert_outbox : String → Statement
  select_outbox : Statement
  update_outbox : String → Statement
  select_transaction : String → Statement
  commit_tx : Statement

pub record Env : Type 0 where
  -- the driver's error, if the database does not carry the statement out
  pub refuses : Db → Statement → Option String
  -- the id of the n-th row
  pub new_id : ℕ → String
  pub marshal : Recorded → String

pub data Error : Type 0 where
  driver : String → Error
  failed_create_account : String → Error
  failed_get_account : String → Error
  balance_out_of_range : Error
  not_balanced : Error
  currency_check : String → Error → Error
  account_not_found : String → Error
  multi_currency : String → String → String → Error
  failed_idempotency : Error → Error
  failed_transaction : Error → Error
  failed_entry : String → Error → Error
  failed_outbox : Error → Error

-- A value and a nil error, or the error.
pub data Result (A : Type 0) : Type 0 where
  err : Error → Result A
  ok : A → Result A

-- `if err != nil { return err }` after a call, with and without its value.
infixl 5 ◌>>=◌ ◌>>◌
abbrev pub ◌>>=◌ : {A B : Type 0} → Result A → (A → Result B) → Result B
call >>= rest = elim call [ err failure ↦ err failure | ok value ↦ rest value ]

abbrev pub ◌>>◌ : {A B : Type 0} → Result A → Result B → Result B
call >> rest = elim call [ err failure ↦ err failure | ok _ ↦ rest ]

-- `fmt.Errorf("…: %w", err)` on the error of a call.
abbrev pub wrap_error : {A : Type 0} → (Error → Error) → Result A → Result A
wrap_error f (ok a) = ok a
wrap_error f (err e) = err (f e)

-- The answer of a statement that the database carries out.
abbrev pub execute : {A : Type 0} → (String → Error) → Option String → A → Result A
execute f none a = ok a
execute f (some e) a = err (f e)

-- `SUM(e.amount)` over the entries of an account: numeric, so exact.
unfoldable pub balance : String → List Entry → ℤ
balance id [] = pos 0
balance id (e ∷ es) =
    let rest = balance id es in if str_eq e.account_id id then e.amount +ℤ rest else rest

-- `SQLRepository.CreateAccount`
unfoldable pub create_account : Env → Account → Db → Result (Account × Db)
create_account env acc db =
    let row = record acc { id = env.new_id (length db.accounts) } in
    execute failed_create_account (env.refuses db (insert_account acc))
      (row, record db { accounts = db.accounts ++ row ∷ [] })

-- `Scan` fails if the sum does not fit `Balance int64`.
abbrev pub with_balance : List Entry → Account → Result (Option Account)
with_balance es acc =
    let b = balance acc.id es in
    if is_int64 b then ok (some (record acc { balance = b })) else err balance_out_of_range

abbrev pub scan_account : List Entry → Option Account → Result (Option Account)
scan_account es none = ok none
scan_account es (some acc) = with_balance es acc

-- `SQLRepository.GetAccount`
unfoldable pub get_account : Env → String → Db → Result (Option Account)
get_account env id db =
    execute failed_get_account (env.refuses db (select_account id)) tt
    >> scan_account db.entries (find (λ acc. str_eq acc.id id) db.accounts)

-- `SQLRepository.BeginTx`; a transaction context is the state of its snapshot.
unfoldable pub begin : Env → Db → Result Db
begin env db = execute driver (env.refuses db begin_tx) db

-- `sqlTxContext.CreateTransaction`
unfoldable pub create_transaction : Env → Transaction → Db → Result (String × Db)
create_transaction env tx db =
    let row = record tx { id = env.new_id (length db.transactions) } in
    execute driver (env.refuses db (insert_transaction tx))
      (row.id, record db { transactions = db.transactions ++ row ∷ [] })

-- `sqlTxContext.CreateEntry`
unfoldable pub create_entry : Env → Entry → Db → Result Db
create_entry env e db =
    execute driver (env.refuses db (insert_entry e)) (record db { entries = db.entries ++ e ∷ [] })

abbrev pub found_id : Option Transaction → String
found_id none = ""
found_id (some tx) = tx.id

abbrev pub has_reference : String → Transaction → Bool
has_reference ref tx = str_eq tx.reference_id ref

-- `sqlTxContext.CheckIdempotency`: the empty text stands for no row.
unfoldable pub check_idempotency : Env → String → Db → Result String
check_idempotency env ref db =
    execute driver (env.refuses db (select_reference ref))
      (found_id (find (has_reference ref) db.transactions))

-- `sqlTxContext.CreateOutboxEvent`
unfoldable pub create_outbox_event : Env → String → String → Db → Result Db
create_outbox_event env event_type payload db =
    let row : OutboxEvent = record {
      id = env.new_id (length db.outbox);
      event_type = event_type;
      payload = payload;
      processed = false;
    } in
    execute driver (env.refuses db (insert_outbox event_type))
      (record db { outbox = db.outbox ++ row ∷ [] })

-- `sqlTxContext.Commit`; after a refused commit the database keeps its state. A connection that is
-- lost while the database commits, so that the rows are there behind the error, is not modelled.
unfoldable pub commit : Env → Db → Result Db
commit env db = execute driver (env.refuses db commit_tx) db

-- `SQLRepository.GetUnprocessedEvents`; rows stand in the order of their insertion.
unfoldable pub get_unprocessed_events : Env → ℕ → Db → Result (List OutboxEvent)
get_unprocessed_events env limit db =
    execute driver (env.refuses db select_outbox)
      (take limit (select (λ e. not e.processed) db.outbox))

abbrev pub set_processed : String → OutboxEvent → OutboxEvent
set_processed id e = if str_eq e.id id then record e { processed = true } else e

-- `SQLRepository.MarkEventProcessed`
unfoldable pub mark_event_processed : Env → String → Db → Result Db
mark_event_processed env id db =
    execute driver (env.refuses db (update_outbox id))
      (record db { outbox = map (set_processed id) db.outbox })

-- `getTransactionEntries`
unfoldable pub get_transaction_entries : String → Db → List Entry
get_transaction_entries id db = select (λ e. str_eq e.transaction_id id) db.entries

abbrev pub with_entries : Db → Option Transaction → Option (Transaction × List Entry)
with_entries db none = none
with_entries db (some tx) = some (tx, get_transaction_entries tx.id db)

-- `SQLRepository.GetTransaction`
unfoldable pub get_transaction : Env → String → Db → Result (Option (Transaction × List Entry))
get_transaction env id db =
    execute driver (env.refuses db (select_transaction id))
      (with_entries db (find (λ tx. str_eq tx.id id) db.transactions))
