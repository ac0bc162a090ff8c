-- ===== src/Payment/Store.antt =====
-- internal/payment/domain and internal/payment/infrastructure/sql_repository.go: the tables and the
-- statements. `created_at` columns are not modelled. What lies outside (the database's refusals, the
-- bank, Kafka, the token library) is in `PayEnv`; what the handlers send out is logged in `Payments`.
use fintech_ecosystem.Base.{
  ℕ, String, Bool, ◌&&◌, Option, none, some, List, [], ◌∷◌, ◌++◌, map, length, find, str_eq,
  if◌then◌else◌,
}
use fintech_ecosystem.Base.Int.{ℤ}
use fintech_ecosystem.Ledger.Store.{Env}
use fintech_ecosystem.Ledger.Service.{LedgerService}

pub record PaymentIntent : Type 0 where
  pub id : String
  pub zone_id : String
  pub mode : String
  pub amount : ℤ
  pub currency : String
  pub status : String
  pub description : String
  pub user_id : String
  pub application_fee_amount : ℤ
  pub on_behalf_of : String

-- What a handler writes: an error's text, an intent, or the map of a declined charge.
pub data Body : Type 0 where
  error_body : String → Body
  intent_body : PaymentIntent → Body
  declined : Body

pub record Response : Type 0 where
  pub status : ℕ
  pub body : Body

pub record IdempotencyRecord : Type 0 where
  pub user_id : String
  pub key : String
  pub response_body : Body
  pub status_code : ℕ

-- What goes to Kafka: the key, the type and the intent of the event.
pub record KafkaEvent : Type 0 where
  pub key : String
  pub type : String
  pub intent : PaymentIntent

pub record Charge : Type 0 where
  pub amount : ℤ
  pub currency : String
  pub card_token : String

pub record Payments : Type 0 where
  pub intents : List PaymentIntent
  pub keys : List IdempotencyRecord
  -- the charges that the bank was asked for
  pub charges : List Charge
  pub kafka : List KafkaEvent
  -- the channel "webhook_events" of Redis
  pub webhooks : List KafkaEvent
  pub audited : List String
  pub ledger : LedgerService

pub data PayStatement : Type 0 where
  insert_intent : PaymentIntent → PayStatement
  select_intent : String → PayStatement
  update_status : String → String → PayStatement
  select_key : String → String → PayStatement
  insert_key : IdempotencyRecord → PayStatement

pub record PayEnv : Type 0 where
  pub ledger_env : Env
  pub refuses : Payments → PayStatement → Option String
  pub new_id : ℕ → String
  -- the error of `bankClient.Charge`
  pub charge_error : Charge → Option String
  pub kafka_refuses : KafkaEvent → Bool
  -- the user of a token, if it is valid
  pub validate_token : String → Option String

pub data PayResult (A : Type 0) : Type 0 where
  done : A → PayResult A
  fault : String → PayResult A

abbrev pub execute : {A : Type 0} → Option String → A → PayResult A
execute none a = done a
execute (some e) a = fault e

-- `CreatePaymentIntent` with the repository's default currency.
unfoldable pub create_payment_intent :
    PayEnv → PaymentIntent → Payments → PayResult (PaymentIntent × Payments)
create_payment_intent env intent w =
    let currency = if str_eq intent.currency "" then "USD" else intent.currency in
    let row = record intent { id = env.new_id (length w.intents); currency = currency } in
    execute (env.refuses w (insert_intent intent))
      (row, record w { intents = w.intents ++ row ∷ [] })

abbrev pub has_id : String → PaymentIntent → Bool
has_id id intent = str_eq intent.id id

-- `GetPaymentIntent`
unfoldable pub get_payment_intent : PayEnv → String → Payments → PayResult (Option PaymentIntent)
get_payment_intent env id w =
    execute (env.refuses w (select_intent id)) (find (has_id id) w.intents)

abbrev pub set_status : String → String → PaymentIntent → PaymentIntent
set_status id status intent =
    if str_eq intent.id id then record intent { status = status } else intent

-- `UpdateStatus`
unfoldable pub update_status_of : PayEnv → String → String → Payments → PayResult Payments
update_status_of env id status w =
    execute (env.refuses w (update_status id status))
      (record w { intents = map (set_status id status) w.intents })

abbrev pub has_key : String → String → IdempotencyRecord → Bool
has_key user_id key r = str_eq r.user_id user_id && str_eq r.key key

-- `GetIdempotencyKey`
unfoldable pub get_idempotency_key :
    PayEnv → String → String → Payments → PayResult (Option IdempotencyRecord)
get_idempotency_key env user_id key w =
    execute (env.refuses w (select_key user_id key)) (find (has_key user_id key) w.keys)

-- `SaveIdempotencyKey`
unfoldable pub save_idempotency_key :
    PayEnv → String → String → Response → Payments → PayResult Payments
save_idempotency_key env user_id key res w =
    let row : IdempotencyRecord = record {
      user_id = user_id;
      key = key;
      response_body = res.body;
      status_code = res.status;
    } in
    execute (env.refuses w (insert_key row)) (record w { keys = w.keys ++ row ∷ [] })
