-- ===== src/Ledger/Posting.antt =====
-- What `RecordTransaction` leaves in the database (internal/ledger/domain/service.go).
use fintech_ecosystem.Base.{
  String, ◌≡◌, ◌⊎◌, inl, inr, false, List, [], ◌∷◌, ◌++◌, map, length, find, str_eq, if◌then◌else◌,
  Option-cases, arith,
}
use mathlib.Core.List.{append-nil, append_assoc}
use fintech_ecosystem.Ledger.Model.{EntryRequest, TransactionRequest}
use fintech_ecosystem.Ledger.Store.{
  Db, Env, Error, driver, failed_entry, insert_entry, Result, ok, err, has_reference, create_entry,
  create_transaction, create_outbox_event, commit, begin, check_idempotency, found_id,
}
use fintech_ecosystem.Ledger.Service.{
  entry_of, transaction_of, recorded_of, check_balanced, check_currencies, create_entries, post,
  attempt,
}

-- The database with the rows of a request: one transaction, its entries, one outbox event.
abbrev pub posted : Env → TransactionRequest → String → String → Db → Db
posted env req zone_id mode db =
    let id = env.new_id (length db.transactions) in
    record {
      accounts = db.accounts;
      transactions = db.transactions ++ record (transaction_of req zone_id mode) { id = id } ∷ [];
      entries = db.entries ++ map (entry_of id) req.entries;
      outbox =
          db.outbox
          ++ record {
            id = env.new_id (length db.outbox);
            event_type = "transaction.recorded";
            payload = env.marshal (recorded_of req zone_id mode id);
            processed = false;
          }
            ∷ [];
    }

-- A step that may fail has one value where it succeeds.
abbrev pub Yields : {A : Type 0} → Result A → A → Type 0
Yields m a = (m ≡ ok a) ⊎ ((e : Error) × (m ≡ err e))

pub Yields-eq : {A : Type 0} {m : Result A} {a b : A} → Yields m a → m ≡ ok b → b ≡ a
Yields-eq (inl p) h = cc
Yields-eq (inr (e, p)) h = cc

pub create_entries-Yields :
    (env : Env) (id : String) (es : List EntryRequest) (db : Db)
    → Yields
        (create_entries env id es db)
        (record db { entries = db.entries ++ map (entry_of id) es })
unfolding create_entries create_entry
create_entries-Yields env id [] db = inl (rw append-nil)
create_entries-Yields env id (e ∷ es) db =
    let later = record db { entries = db.entries ++ entry_of id e ∷ [] } in
    elim (Option-cases (env.refuses db (insert_entry (entry_of id e)))) [
      | inl fine ↦ rw fine (
          rw (append_assoc db.entries (entry_of id e ∷ []) (map (entry_of id) es)) at
            (create_entries-Yields env id es later))
      | inr (d, down) ↦ inr (failed_entry e.account_id (driver d), rw down)
    ]

-- A successful `post` leaves exactly the rows of the request.
pub post-Yields :
    (env : Env) (req : TransactionRequest) (zone_id mode : String) (db : Db)
    → Yields (post env req zone_id mode db) (posted env req zone_id mode db)
unfolding post create_transaction create_outbox_event commit
post-Yields env req zone_id mode db =
    let id = env.new_id (length db.transactions) in
    let row = record (transaction_of req zone_id mode) { id = id } in
    let db1 = record db { transactions = db.transactions ++ row ∷ [] } in
    ground (arith, create_entries-Yields env id req.entries db1)

abbrev pub existing : TransactionRequest → Db → String
existing req db = found_id (find (has_reference req.reference_id) db.transactions)

module _ (env : Env) (req : TransactionRequest) (zone_id mode : String) (db : Db) where
  pub attempt-balanced :
      {db' : Db} → attempt env req zone_id mode db ≡ ok db' → check_balanced req.entries ≡ ok tt
  unfolding attempt
  attempt-balanced h = ground arith

  pub attempt-one_currency :
      {db' : Db}
      → attempt env req zone_id mode db ≡ ok db'
      → check_currencies env db "" req.entries ≡ ok tt
  unfolding attempt
  attempt-one_currency h = ground arith

  -- A reference that is there changes nothing; one that is new adds the rows of the request.
  pub attempt-eq :
      {db' : Db}
      → attempt env req zone_id mode db ≡ ok db'
      → db' ≡ (if str_eq (existing req db) "" then posted env req zone_id mode db else db)
  unfolding attempt begin check_idempotency
  attempt-eq h = ground (arith, post-Yields env req zone_id mode db)
