-- ===== src/Tests/Payment.antt =====
-- The theorems on payments at concrete inputs.
use fintech_ecosystem.Base.{
  String, ◌≡◌, refl, ◌⊎◌, true, false, none, some, [], ◌∷◌, find, str_ne, arith,
}
use fintech_ecosystem.Base.Int.{pos, ◌+ℤ◌, ◌-ℤ◌, add64, neg64, wrap64}
use fintech_ecosystem.Ledger.Store.{
  balance, get_account, begin, create_transaction, create_entry, check_idempotency,
  create_outbox_event, commit,
}
use fintech_ecosystem.Ledger.Service.{
  sum64, check_balanced, agree, check_currencies, create_entries, post, attempt, record_transaction,
}
use fintech_ecosystem.Ledger.Grpc.{serve_record}
use fintech_ecosystem.Payment.Store.{PaymentIntent, Payments, PayEnv, has_id, create_payment_intent}
use fintech_ecosystem.Payment.Handlers.{
  CreateIntentRequest, Request, extract_user_id, create_intent, net_request, record_split, path_id,
  confirm_intent, idempotent,
}
use fintech_ecosystem.Payment.Split.{record_split_net_only}
use fintech_ecosystem.Payment.Lifecycle.{Confirms, confirm_transition}
use fintech_ecosystem.Payment.Idempotency.{Serves, idempotent_replay}
use fintech_ecosystem.Payment.Keys.{Attempt, served, create_intent-KeepsKeys}
use fintech_ecosystem.Tests.Data.{willing, service, account}

abbrev pay_env : PayEnv
pay_env = record {
  ledger_env = willing;
  refuses = λ _ _. none;
  new_id = λ _. "pi2";
  charge_error = λ _. none;
  kafka_refuses = λ _. false;
  validate_token = λ _. none;
}

-- An intent of the status, with a fee and a connected account.
abbrev intent : String → PaymentIntent
intent status = record {
  id = "pi1";
  zone_id = "z1";
  mode = "test";
  amount = pos 100;
  currency = "USD";
  status = status;
  description = "";
  user_id = "u1";
  application_fee_amount = pos 10;
  on_behalf_of = "shop";
}

abbrev payments : String → Payments
payments status = record {
  intents = intent status ∷ [];
  keys = [];
  charges = [];
  kafka = [];
  webhooks = [];
  audited = [];
  ledger = record service {
    db = record (service.db) { accounts = account "acc_shop" ∷ service.db.accounts };
  };
}

abbrev create_body : CreateIntentRequest
create_body = record {
  amount = pos 100;
  currency = "USD";
  description = "";
  application_fee_amount = pos 0;
  on_behalf_of = "";
}

abbrev request : Request
request = record {
  is_post = true;
  idempotency_key = "k1";
  user_header = "u1";
  zone_id = "z1";
  mode = "test";
  bearer = "";
  path_parts = "" ∷ "payment_intents" ∷ "pi1" ∷ "confirm" ∷ [];
  create_body = some create_body;
  confirm_body = some "pm_card";
}

record_split_net_only_example :
    (record_split willing (intent "succeeded") (payments "").ledger).db
    ≡ (serve_record willing (net_request (intent "succeeded")) (payments "").ledger).1.db
unfolding serve_record record_transaction attempt check_balanced sum64 add64 wrap64 neg64 ◌+ℤ◌ ◌-ℤ◌
    check_currencies agree get_account balance begin check_idempotency post create_transaction
    create_entries create_entry create_outbox_event commit
record_split_net_only_example =
    record_split_net_only willing (intent "succeeded") (payments "").ledger
      (λ _. str_ne "row" "" refl) tt refl

confirm_transition_example :
    (i' : PaymentIntent) × (find
        (has_id "pi1")
        (confirm_intent pay_env request (payments "failed")).1.intents
      ≡ some i')
    × ((i' ≡ intent "failed")
        ⊎ ((path_id request.path_parts ≡ some "pi1") × Confirms (intent "failed") i'))
confirm_transition_example = confirm_transition pay_env request (payments "failed") "pi1" refl

-- An ordinary payment, and the tables with it and its user's account.
abbrev ordinary : String → PaymentIntent
ordinary status = record (intent status) { application_fee_amount = pos 0; on_behalf_of = "" }

abbrev ordinary_payments : Payments
ordinary_payments = record (payments "") {
  intents = ordinary "refunded" ∷ [];
  ledger = record service {
    db = record (service.db) { accounts = account "user_u1" ∷ service.db.accounts };
  };
}

serves : Serves pay_env "u1" "k1"
serves = record { reads = λ _. refl; writes = λ _ _. refl }

-- The same user's request under another key, between the two.
abbrev between : Attempt
between = record {
  env = pay_env;
  next = create_intent;
  request = record request { idempotency_key = "k2" };
}

idempotent_replay_example :
    let (res, w1) = idempotent create_intent pay_env request (payments "") in
    let w2 = served (between ∷ []) w1 in
    (res ≡ (create_intent pay_env request (payments "")).0)
    × (idempotent create_intent pay_env request w2 ≡ (res, w2))
unfolding extract_user_id create_intent create_payment_intent
idempotent_replay_example =
    idempotent_replay pay_env pay_env create_intent create_intent request request "u1" (payments "")
      (between ∷ []) refl refl (str_ne "u1" "" refl) (str_ne "k1" "" refl) refl serves serves refl
      refl (ground arith) (create_intent-KeepsKeys pay_env between.request, tt)
