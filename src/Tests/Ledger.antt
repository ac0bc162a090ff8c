-- ===== src/Tests/Ledger.antt =====
-- The ledger's theorems at concrete inputs.
use fintech_ecosystem.Base.{String, ◌≡◌, refl, ◌↔◌, none, [], ◌∷◌, All, str_ne, arith}
use fintech_ecosystem.Base.Int.{pos, ◌+ℤ◌, ◌-ℤ◌, add64, neg64, wrap64}
use fintech_ecosystem.Ledger.Model.{TransactionRequest}
use fintech_ecosystem.Ledger.Store.{
  ok, balance, get_account, begin, create_transaction, create_entry, check_idempotency,
  create_outbox_event, commit,
}
use fintech_ecosystem.Ledger.Service.{
  sum64, check_balanced, agree, check_currencies, create_entries, post, attempt, record_transaction,
  bulk_record_transactions,
}
use fintech_ecosystem.Ledger.Events.{
  PaymentData, event, after_payment, handle_event, refund_restores,
}
use fintech_ecosystem.Ledger.Conservation.{sum, total, IsMultiple, check_balanced_iff}
use fintech_ecosystem.Ledger.Trial.{IsTrialBalanced, bulk_record_transactions-IsTrialBalanced}
use fintech_ecosystem.Ledger.Currency.{Names, record_transaction_one_currency}
use fintech_ecosystem.Ledger.Replay.{
  Effect, record_transaction-Effect, Call, record_call, record_calls, record_transaction_retry,
}
use fintech_ecosystem.Ledger.Refinement.{BooksRun, books, bulk_refines}
use fintech_ecosystem.Tests.Data.{willing, service, amounts, request}

record_transaction-Effect_example :
    Effect willing request "z1" "test" service
      (record_transaction willing request "z1" "test" service)
record_transaction-Effect_example = record_transaction-Effect willing request "z1" "test" service

check_balanced_iff_example : (check_balanced amounts ≡ ok tt) ↔ IsMultiple (sum amounts)
check_balanced_iff_example = check_balanced_iff amounts

recorded : (record_transaction willing request "z1" "test" service).0 ≡ none
unfolding record_transaction attempt check_balanced sum64 add64 wrap64 ◌+ℤ◌ check_currencies agree
    get_account balance begin check_idempotency post create_transaction create_entries create_entry
    create_outbox_event commit
recorded = refl

abbrev call : TransactionRequest → Call
call req = record { env = willing; req = req; zone_id = "z1"; mode = "test" }

abbrev other_request : TransactionRequest
other_request = record request { reference_id = "ref2" }

record_transaction_retry_example :
    let s' = record_calls (call other_request ∷ []) (record_call (call request) service) in
    (record_call (call request) s').db ≡ s'.db
record_transaction_retry_example =
    record_transaction_retry (call request) (call other_request ∷ []) (call request) service
      (λ _. str_ne "row" "" refl) ((λ _. str_ne "row" "" refl), tt) tt refl recorded

bulk_record_transactions-IsTrialBalanced_example :
    IsTrialBalanced
      (bulk_record_transactions willing (request ∷ request ∷ []) "z1" "test" service).1.db
unfolding total
bulk_record_transactions-IsTrialBalanced_example =
    bulk_record_transactions-IsTrialBalanced willing (request ∷ request ∷ []) "z1" "test" service
      (refl, refl)

bulk_refines_example :
    let (es, s') = bulk_record_transactions willing (request ∷ request ∷ []) "z1" "test" service in
    BooksRun (books service.db) (request ∷ request ∷ []) es (books s'.db)
bulk_refines_example =
    bulk_refines willing (request ∷ request ∷ []) "z1" "test" service (λ _. str_ne "row" "" refl) tt

record_transaction_one_currency_example :
    (c : String) × All (Names willing service.db c) request.entries
record_transaction_one_currency_example =
    record_transaction_one_currency willing request "z1" "test" service recorded

abbrev paid : PaymentData
paid = record {
  id = "pay1";
  amount = pos 7;
  currency = "USD";
  user_id = "u1";
  zone_id = "z1";
  mode = "test";
}

refund_restores_example :
    balance "user_u1"
      (handle_event willing
        (event "payment.refunded" paid)
        (after_payment willing paid service)).1.db.entries
    ≡ balance "user_u1" service.db.entries
unfolding handle_event record_transaction attempt check_balanced sum64 add64 wrap64 neg64 ◌+ℤ◌ ◌-ℤ◌
    check_currencies agree get_account balance begin check_idempotency post create_transaction
    create_entries create_entry create_outbox_event commit
refund_restores_example =
    refund_restores willing willing paid service "user_u1" (ground arith) refl refl refl refl

-- What the consumer reads of the published events: the id is missing.
abbrev unnamed : PaymentData
unnamed = record paid { id = "" }
