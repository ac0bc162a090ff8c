-- ===== src/Ledger/Refinement.antt =====
-- The ledger service as its clients see it: books of balances and known references, which
-- `BulkRecordTransactions` of internal/ledger/domain/service.go changes one request after the other.
use fintech_ecosystem.Base.{
  String, ◌≡◌, refl, ◌≢◌, inl, inr, Bool, true, false, not, ◌||◌, Option, none, some, List, [], ◌∷◌,
  ◌++◌, find, exists, length, All, str_eq, str_eq_ne, Bool-cases, arith, if◌then◌else◌,
}
use fintech_ecosystem.Base.Int.{ℤ, ◌+ℤ◌}
use fintech_ecosystem.Ledger.Model.{Transaction, TransactionRequest}
use fintech_ecosystem.Ledger.Store.{Db, Env, Error, balance, has_reference, found_id}
use fintech_ecosystem.Ledger.Service.{
  LedgerService, transaction_of, record_transaction, bulk_record_transactions,
}
use fintech_ecosystem.Ledger.Posting.{posted, existing}
use fintech_ecosystem.Ledger.Replay.{
  Effect, record_transaction-Effect, HasIds, GivesIds, posted-HasIds,
}
use fintech_ecosystem.Ledger.Conservation.{
  sum, IsMultiple, check_balanced_iff, requested, balance-append,
}

pub record Books : Type 0 where
  pub holds : String → ℤ
  pub knows : String → Bool

-- The books of a database.
abbrev pub books : Db → Books
books db = record {
  holds = λ id. balance id db.entries;
  knows = λ ref. exists (has_reference ref) db.transactions;
}

-- What a request does to the books: nothing if its reference is known.
abbrev pub accept : TransactionRequest → Books → Books
accept req b = if b.knows req.reference_id then b else record {
  holds = λ id. b.holds id +ℤ requested id req.entries;
  knows = λ ref. str_eq req.reference_id ref || b.knows ref;
}

-- A batch on the books: every request is rejected with an error, or balanced and accepted.
pub data BooksRun : Books → List TransactionRequest → List (Option Error) → Books → Type 0 where
  finished : {b : Books} → BooksRun b [] [] b
  rejected :
      {b b' : Books} {req : TransactionRequest} {reqs : List TransactionRequest}
      {es : List (Option Error)} (e : Error)
      → BooksRun b reqs es b'
      → BooksRun b (req ∷ reqs) (some e ∷ es) b'
  accepted :
      {b b' : Books} {req : TransactionRequest} {reqs : List TransactionRequest}
      {es : List (Option Error)}
      → IsMultiple (sum req.entries)
      → BooksRun (accept req b) reqs es b'
      → BooksRun b (req ∷ reqs) (none ∷ es) b'

exists-last :
    (p : Transaction → Bool) (txs : List Transaction) (row : Transaction)
    → exists p (txs ++ row ∷ []) ≡ (p row || exists p txs)
exists-last p [] row = ground arith
exists-last p (tx ∷ txs) row = ground (arith, exists-last p txs row)

found_id-exists :
    (ref : String) (txs : List Transaction)
    → All (λ (tx : Transaction). tx.id ≢ "") txs
    → str_eq (found_id (find (has_reference ref) txs)) "" ≡ not (exists (has_reference ref) txs)
found_id-exists ref [] ids = ground arith
found_id-exists ref (tx ∷ txs) (id, ids) =
    ground (arith, str_eq_ne tx.id "" id, found_id-exists ref txs ids)

books-posted :
    (env : Env) (req : TransactionRequest) (zone_id mode : String) (db : Db)
    → exists (has_reference req.reference_id) db.transactions ≡ false
    → books (posted env req zone_id mode db) ≡ accept req (books db)
books-posted env req zone_id mode db new =
    let id = env.new_id (length db.transactions) in
    let row : Transaction = record (transaction_of req zone_id mode) { id = id } in
    let moved : books (posted env req zone_id mode db) ≡ record {
      holds = λ account. balance account db.entries +ℤ requested account req.entries;
      knows = λ ref. str_eq req.reference_id ref || exists (has_reference ref) db.transactions;
    } =
      λ i. record {
        holds = λ account. balance-append account id db.entries req.entries i;
        knows = λ ref. exists-last (has_reference ref) db.transactions row i;
      } in
    rw new moved

-- One call, by what it has done: the books behind it, and row ids as before.
step :
    (env : Env) (req : TransactionRequest) (zone_id mode : String) (s : LedgerService)
    {reqs : List TransactionRequest} {es : List (Option Error)} {b : Books}
    (r : Option Error × LedgerService)
    → GivesIds env
    → HasIds s.db
    → Effect env req zone_id mode s r
    → HasIds r.1.db
      × (BooksRun (books r.1.db) reqs es b → BooksRun (books s.db) (req ∷ reqs) (r.0 ∷ es) b)
step env req zone_id mode s (some e, s') gives ids effect =
    (rw effect.0 ids, λ run. rejected e (rw effect.0 at run))
step env req zone_id mode s (none, s') gives ids effect =
    let balanced = (check_balanced_iff req.entries).0 effect.0 in
    let agrees = found_id-exists req.reference_id s.db.transactions ids in
    elim (Bool-cases (exists (has_reference req.reference_id) s.db.transactions)) [
      | inl known ↦
          let there : str_eq (existing req s.db) "" ≡ false = ground (arith, agrees, known) in
          let same : s'.db ≡ s.db = rw there at effect.2 in
          let stays : accept req (books s.db) ≡ books s.db = rw known refl in
          (rw same ids, λ run. accepted balanced (rw stays (rw same at run)))
      | inr new ↦
          let absent : str_eq (existing req s.db) "" ≡ true = ground (arith, agrees, new) in
          let made : s'.db ≡ posted env req zone_id mode s.db = rw absent at effect.2 in
          (
            rw made (posted-HasIds env req zone_id mode s.db gives ids),
            λ run.
                accepted balanced
                  (rw (← books-posted env req zone_id mode s.db new) (rw made at run)),
          )
    ]

-- The ledger service implements the books: a batch of requests, whichever of them the database or
-- the validations refuse, is a run of the books from those of the database before it to those of
-- the database behind it, with the same errors. In it a rejected request does nothing, and an
-- accepted one is balanced, up to multiples of 2 ^ 64, moves every balance by its amounts and
-- makes its reference known, or does nothing if the reference was known. Row ids must not be
-- empty texts.
pub bulk_refines :
    (env : Env) (reqs : List TransactionRequest) (zone_id mode : String) (s : LedgerService)
    → GivesIds env
    → HasIds s.db
    → let (es, s') = bulk_record_transactions env reqs zone_id mode s in
      BooksRun (books s.db) reqs es (books s'.db)
unfolding bulk_record_transactions
bulk_refines env [] zone_id mode s gives ids = finished
bulk_refines env (req ∷ reqs) zone_id mode s gives ids =
    let (ids', then_run) =
      step env req zone_id mode s (record_transaction env req zone_id mode s) gives ids
        (record_transaction-Effect env req zone_id mode s) in
    then_run
      (bulk_refines env reqs zone_id mode (record_transaction env req zone_id mode s).1 gives ids')
