-- ===== src/Ledger/Events.antt =====
-- cmd/ledger/events.go: the Kafka consumer of payment events. The decoded message is an argument,
-- `none` where `json.Unmarshal` fails.
use fintech_ecosystem.Base.{
  String, ◌<>◌, ◌≡◌, refl, ◌∙◌, ap, Bool-cases, inl, inr, Option, none, some, [], ◌∷◌, str_eq,
  if◌then◌else◌,
}
use fintech_ecosystem.Base.Int.{ℤ, pos, ◌+ℤ◌, +ℤ_assoc, int_laws, neg64}
use fintech_ecosystem.Ledger.Model.{TransactionRequest}
use fintech_ecosystem.Ledger.Store.{Env, Error, balance}
use fintech_ecosystem.Ledger.Service.{LedgerService, record_transaction}
use fintech_ecosystem.Ledger.Posting.{existing}
use fintech_ecosystem.Ledger.Trial.{record_transaction_moves}
use fintech_ecosystem.Ledger.Conservation.{requested}
use fintech_ecosystem.Ledger.Grpc.{system_balancing, balanced_pair}
use fintech_ecosystem.Ledger.Pair.{IsAmount, neg64_parts}

pub record PaymentData : Type 0 where
  pub id : String
  pub amount : ℤ
  pub currency : String
  pub user_id : String
  pub zone_id : String
  pub mode : String

pub record PaymentEvent : Type 0 where
  pub type : String
  pub payload : PaymentData

abbrev pub payment_request : PaymentData → TransactionRequest
payment_request d = record {
  reference_id = d.id;
  description = "Kafka Event: Payment Success";
  entries = balanced_pair ("user_" <> d.user_id) d.amount;
}

abbrev pub refund_request : PaymentData → TransactionRequest
refund_request d = record {
  reference_id = "refund_" <> d.id;
  description = "Kafka Event: Payment Refunded";
  entries =
      record { account_id = "user_" <> d.user_id; amount = neg64 d.amount; direction = "debit" }
      ∷ record { account_id = system_balancing; amount = d.amount; direction = "credit" }
      ∷ [];
}

-- The `switch event.Type`.
abbrev pub event_request : PaymentEvent → Option TransactionRequest
event_request e =
    if str_eq e.type "payment.succeeded"
    then some (payment_request e.payload)
    else (if str_eq e.type "payment.refunded" then some (refund_request e.payload) else none)

pub data ConsumerError : Type 0 where
  bad_message : ConsumerError
  ledger : Error → ConsumerError

abbrev pub consumed : Option Error → Option ConsumerError
consumed none = none
consumed (some e) = some (ledger e)

abbrev pub record_request :
    Env
    → PaymentData
    → Option TransactionRequest
    → LedgerService
    → Option ConsumerError × LedgerService
record_request env d none s = (none, s)
record_request env d (some req) s =
    let (e, s') = record_transaction env req d.zone_id d.mode s in (consumed e, s')

-- The handler that `StartKafkaConsumer` gives to the consumer.
unfoldable pub handle_event :
    Env → Option PaymentEvent → LedgerService → Option ConsumerError × LedgerService
handle_event env none s = (some bad_message, s)
handle_event env (some e) s = record_request env e.payload (event_request e) s

abbrev pub event : String → PaymentData → Option PaymentEvent
event type d = some (record { type = type; payload = d })

no_error : (e : Option Error) → consumed e ≡ none → e ≡ none
no_error none h = refl
no_error (some e) h = cc

payment_moves :
    (env : Env) (d : PaymentData) (s : LedgerService) (id : String)
    → existing (payment_request d) s.db ≡ ""
    → (handle_event env (event "payment.succeeded" d) s).0 ≡ none
    → balance id (handle_event env (event "payment.succeeded" d) s).1.db.entries
      ≡ balance id s.db.entries +ℤ requested id (payment_request d).entries
unfolding handle_event
payment_moves env d s id new done =
    record_transaction_moves env (payment_request d) d.zone_id d.mode s id new (no_error _ done)

refund_moves :
    (env : Env) (d : PaymentData) (s : LedgerService) (id : String)
    → existing (refund_request d) s.db ≡ ""
    → (handle_event env (event "payment.refunded" d) s).0 ≡ none
    → balance id (handle_event env (event "payment.refunded" d) s).1.db.entries
      ≡ balance id s.db.entries +ℤ requested id (refund_request d).entries
unfolding handle_event
refund_moves env d s id new done =
    record_transaction_moves env (refund_request d) d.zone_id d.mode s id new (no_error _ done)

requested_cancel :
    (d : PaymentData) (id : String)
    → IsAmount d.amount
    → requested id (payment_request d).entries +ℤ requested id (refund_request d).entries ≡ pos 0
unfolding requested
requested_cancel d id h = elim (Bool-cases (str_eq ("user_" <> d.user_id) id)) [
  | inl u ↦ elim (Bool-cases (str_eq system_balancing id)) [
    | inl b ↦ rw (u, b) (omega (int_laws, neg64_parts d.amount h))
    | inr b ↦ rw (u, b) (omega (int_laws, neg64_parts d.amount h))
  ]
  | inr u ↦ elim (Bool-cases (str_eq system_balancing id)) [
    | inl b ↦ rw (u, b) (omega (int_laws, neg64_parts d.amount h))
    | inr b ↦ rw (u, b) (omega int_laws)
  ]
]

-- The service after the "payment.succeeded" event.
abbrev pub after_payment : Env → PaymentData → LedgerService → LedgerService
after_payment env d s = (handle_event env (event "payment.succeeded" d) s).1

-- A "payment.refunded" event undoes its "payment.succeeded" event: if both references are new and
-- neither call reports an error, every account ends with the balance that it had.
pub refund_restores :
    (env env' : Env) (d : PaymentData) (s : LedgerService) (id : String)
    → IsAmount d.amount
    → existing (payment_request d) s.db ≡ ""
    → existing (refund_request d) (after_payment env d s).db ≡ ""
    → (handle_event env (event "payment.succeeded" d) s).0 ≡ none
    → (handle_event env' (event "payment.refunded" d) (after_payment env d s)).0 ≡ none
    → balance id
        (handle_event env' (event "payment.refunded" d) (after_payment env d s)).1.db.entries
      ≡ balance id s.db.entries
refund_restores env env' d s id h new new' paid refunded =
    let s1 = (handle_event env (event "payment.succeeded" d) s).1 in
    refund_moves env' d s1 id new' refunded
    ∙ ap (λ (b : ℤ). b +ℤ requested id (refund_request d).entries)
        (payment_moves env d s id new paid)
    ∙ cancel (balance id s.db.entries) _ _ (requested_cancel d id h)
  where
    cancel : (a b c : ℤ) → b +ℤ c ≡ pos 0 → a +ℤ b +ℤ c ≡ a
    cancel a b c e = rw (+ℤ_assoc a b c, e) (omega int_laws)
