-- ===== src/Ledger/Replay.antt =====
-- The contract of `RecordTransaction` on every branch, and its idempotency by reference id.
use fintech_ecosystem.Base.{
  ℕ, String, ◌≡◌, refl, ◌≢◌, ◌⊎◌, inl, inr, Option, none, some, List, [], ◌∷◌, ◌++◌, length, find,
  All, All-append, str_eq, str_eq_ne, if◌then◌else◌, Bool-cases, eq_iff, arith,
}
use fintech_ecosystem.Ledger.Model.{Transaction, TransactionRequest}
use fintech_ecosystem.Ledger.Store.{Db, Env, Error, Result, ok, err, has_reference, found_id}
use fintech_ecosystem.Ledger.Service.{
  transaction_of, check_balanced, check_currencies, attempt, LedgerService, tell,
  record_transaction,
}
use fintech_ecosystem.Ledger.Posting.{
  posted, existing, attempt-balanced, attempt-one_currency, attempt-eq,
}

pub Result-cases :
    {A : Type 0} (call : Result A)
    → ((value : A) × (call ≡ ok value)) ⊎ ((failure : Error) × (call ≡ err failure))
Result-cases (err failure) = inr (failure, refl)
Result-cases (ok value) = inl (value, refl)

-- What a call that began at `s` has done, by how it ended.
abbrev pub Effect :
    Env
    → TransactionRequest
    → String
    → String
    → LedgerService
    → Option Error × LedgerService
    → Type 0
Effect env req zone_id mode s (some e, s') = (s'.db ≡ s.db) × (s'.metrics ≡ tell "error" s.metrics)
Effect env req zone_id mode s (none, s') =
    (check_balanced req.entries ≡ ok tt)
    × (check_currencies env s.db "" req.entries ≡ ok tt)
    × (s'.db ≡ (if str_eq (existing req s.db) "" then posted env req zone_id mode s.db else s.db))
    × (s'.metrics ≡ tell "success" s.metrics)

-- Every call of `RecordTransaction` is atomic and reports its end to the metrics. On an error the
-- database is as before. Without one the request passed both validations, and the database has
-- exactly the rows of the request (one transaction, its entries in order, one outbox event) more
-- if the reference was new, and is unchanged if it was there.
pub record_transaction-Effect :
    (env : Env) (req : TransactionRequest) (zone_id mode : String) (s : LedgerService)
    → Effect env req zone_id mode s (record_transaction env req zone_id mode s)
unfolding record_transaction
record_transaction-Effect env req zone_id mode s =
    elim (Result-cases (attempt env req zone_id mode s.db)) [
      | inl (db', done) ↦ rw done (
        attempt-balanced env req zone_id mode s.db done,
        attempt-one_currency env req zone_id mode s.db done,
        attempt-eq env req zone_id mode s.db done,
        refl,
      )
      | inr (e, failed) ↦ rw failed (refl, refl)
    ]

-- Every transaction has an id that is not the empty text.
abbrev pub HasIds : Db → Type 0
HasIds db = All (λ (tx : Transaction). tx.id ≢ "") db.transactions

abbrev pub GivesIds : Env → Type 0
GivesIds env = (n : ℕ) → env.new_id n ≢ ""

existing_new :
    (ref : String) (row : Transaction) (txs : List Transaction)
    → row.reference_id ≡ ref
    → row.id ≢ ""
    → All (λ (tx : Transaction). tx.id ≢ "") txs
    → found_id (find (has_reference ref) (txs ++ row ∷ [])) ≢ ""
existing_new ref row [] same named ids = ground (arith, eq_iff row.reference_id ref)
existing_new ref row (tx ∷ txs) same named (id, ids) =
    ground (arith, existing_new ref row txs same named ids)

existing-posted :
    (env : Env) (req : TransactionRequest) (zone_id mode : String) (db : Db)
    → GivesIds env
    → HasIds db
    → existing req (posted env req zone_id mode db) ≢ ""
existing-posted env req zone_id mode db gives ids =
    existing_new req.reference_id
      (record (transaction_of req zone_id mode) { id = env.new_id (length db.transactions) })
      db.transactions refl (gives (length db.transactions)) ids

-- After a call without error the reference is there.
pub existing_after :
    (env : Env) (req : TransactionRequest) (zone_id mode : String) (s : LedgerService)
    → GivesIds env
    → HasIds s.db
    → (record_transaction env req zone_id mode s).0 ≡ none
    → existing req (record_transaction env req zone_id mode s).1.db ≢ ""
existing_after env req zone_id mode s gives ids done =
    after (record_transaction env req zone_id mode s)
      (record_transaction-Effect env req zone_id mode s) done
  where
    after :
        (r : Option Error × LedgerService)
        → Effect env req zone_id mode s r
        → r.0 ≡ none
        → existing req r.1.db ≢ ""
    after (some e, s') effect bad = cc
    after (none, s') effect _ = elim (Bool-cases (str_eq (existing req s.db) "")) [
      | inl new ↦ rw (effect.2, new) (existing-posted env req zone_id mode s.db gives ids)
      | inr old ↦
          let there : existing req s.db ≢ "" = λ e. cc ((eq_iff (existing req s.db) "").1 e, old) in
          rw (effect.2, old) there
    ]

-- Where the reference is there, no call changes the database.
pub record_transaction_there :
    (env : Env) (req : TransactionRequest) (zone_id mode : String) (s : LedgerService)
    → existing req s.db ≢ ""
    → (record_transaction env req zone_id mode s).1.db ≡ s.db
record_transaction_there env req zone_id mode s there =
    unchanged (record_transaction env req zone_id mode s)
      (record_transaction-Effect env req zone_id mode s)
  where
    unchanged : (r : Option Error × LedgerService) → Effect env req zone_id mode s r → r.1.db ≡ s.db
    unchanged (some e, s') effect = effect.0
    unchanged (none, s') effect = rw (effect.2, str_eq_ne (existing req s.db) "" there)

-- One call of `RecordTransaction`: its request, the zone and the mode, and what it meets.
pub record Call : Type 0 where
  pub env : Env
  pub req : TransactionRequest
  pub zone_id : String
  pub mode : String

pub record_call : Call → LedgerService → LedgerService
record_call c s = (record_transaction c.env c.req c.zone_id c.mode s).1

pub record_calls : List Call → LedgerService → LedgerService
record_calls [] s = s
record_calls (c ∷ calls) s = record_calls calls (record_call c s)

pub posted-HasIds :
    (env : Env) (req : TransactionRequest) (zone_id mode : String) (db : Db)
    → GivesIds env
    → HasIds db
    → HasIds (posted env req zone_id mode db)
posted-HasIds env req zone_id mode db gives ids =
    All-append (λ (tx : Transaction). tx.id ≢ "") db.transactions
      (record (transaction_of req zone_id mode) { id = env.new_id (length db.transactions) } ∷ [])
      ids (gives (length db.transactions), tt)

-- A call posts its request or leaves the database.
record_transaction-db :
    (env : Env) (req : TransactionRequest) (zone_id mode : String) (s : LedgerService)
    → let db' = (record_transaction env req zone_id mode s).1.db in
      (db' ≡ s.db) ⊎ (db' ≡ posted env req zone_id mode s.db)
record_transaction-db env req zone_id mode s =
    cases (record_transaction env req zone_id mode s)
      (record_transaction-Effect env req zone_id mode s)
  where
    cases :
        (r : Option Error × LedgerService)
        → Effect env req zone_id mode s r
        → (r.1.db ≡ s.db) ⊎ (r.1.db ≡ posted env req zone_id mode s.db)
    cases (some e, s') effect = inl effect.0
    cases (none, s') effect = elim (Bool-cases (str_eq (existing req s.db) "")) [
      | inl new ↦ inr (rw (effect.2, new) refl)
      | inr old ↦ inl (rw (effect.2, old) refl)
    ]

found_id-append :
    (ref : String) (row : Transaction) (txs : List Transaction)
    → found_id (find (has_reference ref) txs) ≢ ""
    → found_id (find (has_reference ref) (txs ++ row ∷ [])) ≢ ""
found_id-append ref row [] there = absurd (there refl)
found_id-append ref row (tx ∷ txs) there = ground (arith, there, found_id-append ref row txs)

-- A reference id is recorded, in a database whose rows have ids.
record IsRecorded (req : TransactionRequest) (db : Db) : Type 0 where
  ids : HasIds db
  there : existing req db ≢ ""

record_call-HasIds :
    (c : Call) (s : LedgerService) → GivesIds c.env → HasIds s.db → HasIds (record_call c s).db
unfolding record_call
record_call-HasIds c s gives ids = elim (record_transaction-db c.env c.req c.zone_id c.mode s) [
  | inl same ↦ rw same ids
  | inr new ↦ rw new (posted-HasIds c.env c.req c.zone_id c.mode s.db gives ids)
]

record_call-IsRecorded :
    (req : TransactionRequest) (c : Call) (s : LedgerService)
    → GivesIds c.env
    → IsRecorded req s.db
    → IsRecorded req (record_call c s).db
unfolding record_call
record_call-IsRecorded req c s gives known =
    elim (record_transaction-db c.env c.req c.zone_id c.mode s) [
      | inl same ↦ rw same known
      | inr new ↦ rw new (record {
        ids = posted-HasIds c.env c.req c.zone_id c.mode s.db gives known.ids;
        there =
            found_id-append req.reference_id
              (record (transaction_of c.req c.zone_id c.mode) {
                id = c.env.new_id (length s.db.transactions);
              })
              s.db.transactions known.there;
      })
    ]

record_calls-IsRecorded :
    (req : TransactionRequest) (calls : List Call) (s : LedgerService)
    → All (λ (c : Call). GivesIds c.env) calls
    → IsRecorded req s.db
    → IsRecorded req (record_calls calls s).db
unfolding record_calls
record_calls-IsRecorded req [] s gives known = known
record_calls-IsRecorded req (c ∷ calls) s (gives, others) known =
    record_calls-IsRecorded req calls (record_call c s) others
      (record_call-IsRecorded req c s gives known)

-- Once a request was recorded without error, no later call with the same reference id changes the
-- database, whichever calls of `RecordTransaction` are made in between, whatever it asks for and
-- whatever the database then refuses. Row ids must not be empty texts: the empty text is how
-- `CheckIdempotency` says that it found none.
pub record_transaction_retry :
    (first : Call) (calls : List Call) (last : Call) (s : LedgerService)
    → GivesIds first.env
    → All (λ (c : Call). GivesIds c.env) calls
    → HasIds s.db
    → last.req.reference_id ≡ first.req.reference_id
    → (record_transaction first.env first.req first.zone_id first.mode s).0 ≡ none
    → let s' = record_calls calls (record_call first s) in (record_call last s').db ≡ s'.db
unfolding record_call
record_transaction_retry first calls last s gives others ids same done =
    let s1 = record_call first s in
    let known = record_calls-IsRecorded first.req calls s1 others (record {
      ids = record_call-HasIds first s gives ids;
      there = existing_after first.env first.req first.zone_id first.mode s gives ids done;
    }) in
    record_transaction_there last.env last.req last.zone_id last.mode (record_calls calls s1)
      (rw same known.there)
