-- ===== src/Ledger/Trial.antt =====
-- Conservation: what calls of the ledger service do to balances and to the sum of the books.
use fintech_ecosystem.Base.{
  String, ◌≡◌, Bool-cases, inl, inr, Option, none, some, List, [], ◌∷◌, length, str_eq,
}
use fintech_ecosystem.Base.Int.{◌+ℤ◌}
use fintech_ecosystem.Ledger.Model.{TransactionRequest}
use fintech_ecosystem.Ledger.Store.{Db, Env, Error, balance}
use fintech_ecosystem.Ledger.Service.{LedgerService, record_transaction, bulk_record_transactions}
use fintech_ecosystem.Ledger.Posting.{posted, existing}
use fintech_ecosystem.Ledger.Replay.{Effect, record_transaction-Effect}
use fintech_ecosystem.Ledger.Conservation.{
  sum, IsMultiple, check_balanced_iff, requested, balance-append, total, total-append,
  IsMultiple-add,
}

-- A call without error with a new reference id changes the balance of every account by exactly the
-- sum of the amounts that the request has for it.
pub record_transaction_moves :
    (env : Env) (req : TransactionRequest) (zone_id mode : String) (s : LedgerService) (id : String)
    → existing req s.db ≡ ""
    → (record_transaction env req zone_id mode s).0 ≡ none
    → balance id (record_transaction env req zone_id mode s).1.db.entries
      ≡ balance id s.db.entries +ℤ requested id req.entries
record_transaction_moves env req zone_id mode s id new done =
    moved (record_transaction env req zone_id mode s)
      (record_transaction-Effect env req zone_id mode s) done
  where
    moved :
        (r : Option Error × LedgerService)
        → Effect env req zone_id mode s r
        → r.0 ≡ none
        → balance id r.1.db.entries ≡ balance id s.db.entries +ℤ requested id req.entries
    moved (some e, s') effect bad = cc
    moved (none, s') effect _ =
        let is_posted : s'.db ≡ posted env req zone_id mode s.db = rw new at effect.2 in
        rw is_posted
          (balance-append id (env.new_id (length s.db.transactions)) s.db.entries req.entries)

-- The entries of the whole ledger sum to zero, up to the wrap-around of the balance check.
abbrev pub IsTrialBalanced : Db → Type 0
IsTrialBalanced db = IsMultiple (total db.entries)

posted-IsTrialBalanced :
    (env : Env) (req : TransactionRequest) (zone_id mode : String) (db : Db)
    → IsMultiple (sum req.entries)
    → IsTrialBalanced db
    → IsTrialBalanced (posted env req zone_id mode db)
posted-IsTrialBalanced env req zone_id mode db zero_sum h =
    rw (total-append (env.new_id (length db.transactions)) db.entries req.entries)
      (IsMultiple-add (total db.entries) (sum req.entries) h zero_sum)

pub record_transaction-IsTrialBalanced :
    (env : Env) (req : TransactionRequest) (zone_id mode : String) (s : LedgerService)
    → IsTrialBalanced s.db
    → IsTrialBalanced (record_transaction env req zone_id mode s).1.db
record_transaction-IsTrialBalanced env req zone_id mode s h =
    kept (record_transaction env req zone_id mode s)
      (record_transaction-Effect env req zone_id mode s)
  where
    kept :
        (r : Option Error × LedgerService)
        → Effect env req zone_id mode s r
        → IsTrialBalanced r.1.db
    kept (some e, s') effect = rw effect.0 h
    kept (none, s') effect = elim (Bool-cases (str_eq (existing req s.db) "")) [
      | inl new ↦
          rw (effect.2, new)
            (posted-IsTrialBalanced env req zone_id mode s.db
              ((check_balanced_iff req.entries).0 effect.0) h)
      | inr old ↦ rw (effect.2, old) h
    ]

-- Every batch keeps the books balanced, up to multiples of 2 ^ 64, whichever of its requests fail.
pub bulk_record_transactions-IsTrialBalanced :
    (env : Env) (reqs : List TransactionRequest) (zone_id mode : String) (s : LedgerService)
    → IsTrialBalanced s.db
    → IsTrialBalanced (bulk_record_transactions env reqs zone_id mode s).1.db
unfolding bulk_record_transactions
bulk_record_transactions-IsTrialBalanced env [] zone_id mode s h = h
bulk_record_transactions-IsTrialBalanced env (req ∷ reqs) zone_id mode s h =
    bulk_record_transactions-IsTrialBalanced env reqs zone_id mode
      (record_transaction env req zone_id mode s).1
      (record_transaction-IsTrialBalanced env req zone_id mode s h)
