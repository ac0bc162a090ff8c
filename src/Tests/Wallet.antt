-- ===== src/Tests/Wallet.antt =====
-- The wallet's theorems at concrete inputs.
use fintech_ecosystem.Base.{
  String, ◌≡◌, refl, Option, none, some, arith, str_eq, str_ne, true, false,
}
use fintech_ecosystem.Base.Int.{pos, ◌+ℤ◌, ◌-ℤ◌, add64, neg64, wrap64}
use fintech_ecosystem.Ledger.Store.{
  Db, Env, Statement, select_account, balance, get_account, begin, create_transaction, create_entry,
  check_idempotency, create_outbox_event, commit,
}
use fintech_ecosystem.Ledger.Service.{
  sum64, check_balanced, agree, check_currencies, create_entries, post, attempt, record_transaction,
}
use fintech_ecosystem.Ledger.Grpc.{system_balancing, serve_record}
use fintech_ecosystem.Wallet.{TransferRequest, transfer}
use fintech_ecosystem.Wallet.Transfer.{AreUsers, transfer_moves, transfer_credit_failed}
use fintech_ecosystem.Tests.Data.{willing, service}

abbrev gift : TransferRequest
gift = record {
  from_user_id = "a";
  to_user_id = "b";
  amount = pos 30;
  currency = "USD";
  reference_id = "gift1";
}

users : AreUsers gift
users = record {
  distinct = str_ne "a" "b" refl;
  from_user = str_ne "a" system_balancing refl;
  to_user = str_ne "b" system_balancing refl;
}

transfer_moves_example :
    let s' = (transfer willing gift service).1 in
    (balance "a" s'.db.entries ≡ balance "a" service.db.entries -ℤ pos 30)
    × (balance "b" s'.db.entries ≡ balance "b" service.db.entries +ℤ pos 30)
    × (balance system_balancing s'.db.entries ≡ balance system_balancing service.db.entries)
unfolding transfer serve_record record_transaction attempt check_balanced sum64 add64 wrap64 neg64
    ◌+ℤ◌ ◌-ℤ◌ check_currencies agree get_account balance begin check_idempotency post
    create_transaction create_entries create_entry create_outbox_event commit
transfer_moves_example = transfer_moves willing gift service users (ground arith) refl refl refl

-- A database that does not read the account "b".
abbrev blind : Db → Statement → Option String
blind db (select_account id) = elim (str_eq id "b") [ true ↦ some "lost" | false ↦ none ]
blind db _ = none

abbrev unwilling : Env
unwilling = record willing { refuses = blind }

transfer_credit_failed_example :
    let s' = (transfer unwilling gift service).1 in
    (balance "a" s'.db.entries ≡ balance "a" service.db.entries -ℤ pos 30)
    × (balance "b" s'.db.entries ≡ balance "b" service.db.entries)
unfolding transfer serve_record record_transaction attempt check_balanced sum64 add64 wrap64 neg64
    ◌+ℤ◌ ◌-ℤ◌ check_currencies agree get_account balance begin check_idempotency post
    create_transaction create_entries create_entry create_outbox_event commit
transfer_credit_failed_example =
    transfer_credit_failed unwilling gift service users (ground arith) refl refl
