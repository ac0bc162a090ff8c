-- ===== src/Payment/Handlers.antt =====
-- cmd/payments/handlers.go: the HTTP handlers. A request is given with its decoded parts: the
-- headers that are read, the parts of the path (`strings.Split`), and the body where it decodes.
use fintech_ecosystem.Base.{
  String, ◌<>◌, Bool, not, ◌&&◌, ◌||◌, Option, none, some, List, [], ◌∷◌, ◌++◌, str_eq, ltb,
  if◌then◌else◌,
}
use fintech_ecosystem.Base.Int.{ℤ, pos, ◌-ℤ◌, ltb_ℤ, leb_ℤ, wrap64, neg64}
use fintech_ecosystem.Ledger.Store.{Env}
use fintech_ecosystem.Ledger.Service.{LedgerService}
use fintech_ecosystem.Ledger.Grpc.{RecordTransactionRequest, serve_record}
use fintech_ecosystem.Payment.Store.{
  PaymentIntent, error_body, intent_body, declined, Response, IdempotencyRecord, KafkaEvent, Charge,
  Payments, PayEnv, PayResult, done, fault, create_payment_intent, get_payment_intent,
  update_status_of, get_idempotency_key, save_idempotency_key,
}

pub record CreateIntentRequest : Type 0 where
  pub amount : ℤ
  pub currency : String
  pub description : String
  pub application_fee_amount : ℤ
  pub on_behalf_of : String

pub record Request : Type 0 where
  pub is_post : Bool
  -- "Idempotency-Key", "X-User-ID", "X-Zone-ID", "X-Zone-Mode"
  pub idempotency_key : String
  pub user_header : String
  pub zone_id : String
  pub mode : String
  -- "Authorization" without its "Bearer " prefix
  pub bearer : String
  pub path_parts : List String
  pub create_body : Option CreateIntentRequest
  -- `payment_method_id`
  pub confirm_body : Option String

-- `WriteErrorJSON`: the status is always 400.
abbrev pub write_error : String → Response
write_error text = record { status = 400; body = error_body text }

abbrev pub unauthorized : String → Response
unauthorized text = record { status = 401; body = error_body text }

-- `extractUserIDFromToken`: `none` is an invalid token, the empty text no authentication.
unfoldable pub extract_user_id : PayEnv → Request → Option String
extract_user_id env r =
    if not (str_eq r.user_header "")
    then some r.user_header
    else (if str_eq r.bearer "" then some "" else env.validate_token r.bearer)

abbrev pub Handler : Type 0
Handler = PayEnv → Request → Payments → Response × Payments

abbrev pub intent_of : Request → String → CreateIntentRequest → PaymentIntent
intent_of r user_id req = record {
  id = "";
  zone_id = r.zone_id;
  mode = r.mode;
  amount = req.amount;
  currency = req.currency;
  status = "requires_payment_method";
  description = req.description;
  user_id = user_id;
  application_fee_amount = req.application_fee_amount;
  on_behalf_of = req.on_behalf_of;
}

abbrev pub created : Payments → PayResult (PaymentIntent × Payments) → Response × Payments
created w (fault e) = (write_error "Failed to create payment intent", w)
created w (done (intent, w')) = (
  record { status = 201; body = intent_body intent },
  record w' { audited = w'.audited ++ "payment.intent_created" ∷ [] },
)

abbrev pub create_for :
    PayEnv → Request → String → Option CreateIntentRequest → Payments → Response × Payments
create_for env r user_id none w = (write_error "Invalid request body", w)
create_for env r user_id (some req) w =
    if leb_ℤ req.amount (pos 0) || str_eq req.currency ""
    then (write_error "Amount and Currency are required", w)
    else created w (create_payment_intent env (intent_of r user_id req) w)

abbrev pub create_as : PayEnv → Request → Option String → Payments → Response × Payments
create_as env r none w = (unauthorized "Invalid token", w)
create_as env r (some user_id) w =
    if str_eq user_id ""
    then (unauthorized "Authentication required", w)
    else create_for env r user_id r.create_body w

-- `PaymentHandler.CreatePaymentIntent`
unfoldable pub create_intent : Handler
create_intent env r w =
    if r.is_post
    then create_as env r (extract_user_id env r) w
    else (write_error "Method not allowed", w)

-- `pathParts[2]`, where there is one.
abbrev pub path_id : List String → Option String
path_id (_ ∷ _ ∷ id ∷ _) = some id
path_id _ = none

abbrev pub ledger_request : PaymentIntent → String → ℤ → String → RecordTransactionRequest
ledger_request intent account_id amount description = record {
  account_id = account_id;
  amount = amount;
  currency = intent.currency;
  description = description <> intent.id;
  reference_id = intent.id;
  zone_id = intent.zone_id;
  mode = intent.mode;
}

abbrev pub net_request : PaymentIntent → RecordTransactionRequest
net_request intent =
    ledger_request intent ("acc_" <> intent.on_behalf_of)
      (wrap64 (intent.amount -ℤ intent.application_fee_amount)) "Payout for "

abbrev pub fee_request : PaymentIntent → RecordTransactionRequest
fee_request intent = ledger_request intent "platform_main" intent.application_fee_amount "Fee for "

abbrev pub customer_request : PaymentIntent → RecordTransactionRequest
customer_request intent =
    ledger_request intent ("user_" <> intent.user_id) (neg64 intent.amount) "Payment "

abbrev pub standard_request : PaymentIntent → RecordTransactionRequest
standard_request intent =
    ledger_request intent ("user_" <> intent.user_id) intent.amount "Payment for intent "

-- The three calls of a split payment; an error is only logged.
unfoldable pub record_split : Env → PaymentIntent → LedgerService → LedgerService
record_split env intent s =
    let s1 = (serve_record env (net_request intent) s).1 in
    let s2 = (serve_record env (fee_request intent) s1).1 in
    (serve_record env (customer_request intent) s2).1

abbrev pub is_split : PaymentIntent → Bool
is_split intent = ltb_ℤ (pos 0) intent.application_fee_amount && not (str_eq intent.on_behalf_of "")

-- "Record in Ledger via gRPC"
unfoldable pub record_in_ledger : Env → PaymentIntent → LedgerService → LedgerService
record_in_ledger env intent s =
    if is_split intent
    then record_split env intent s
    else (serve_record env (standard_request intent) s).1

abbrev pub publish : PayEnv → KafkaEvent → Payments → Payments
publish env e w = if env.kafka_refuses e then w else record w { kafka = w.kafka ++ e ∷ [] }

abbrev pub payment_event : String → PaymentIntent → KafkaEvent
payment_event type intent = record { key = intent.id; type = type; intent = intent }

-- What follows a charge that the bank accepted.
abbrev pub settle : PayEnv → PaymentIntent → Payments → PayResult Payments → Response × Payments
settle env intent w (fault e) = (write_error "Failed to update payment status", w)
settle env intent _ (done w) =
    let event = payment_event "payment.succeeded" intent in
    let w1 = publish env event (record w { webhooks = w.webhooks ++ event ∷ [] }) in
    (
      record { status = 200; body = intent_body (record intent { status = "succeeded" }) },
      record w1 { ledger = record_in_ledger env.ledger_env intent w1.ledger },
    )

abbrev pub charge_of : PaymentIntent → Charge
charge_of intent = record {
  amount = intent.amount;
  currency = intent.currency;
  card_token = "tok_visa";
}

-- A failed update of the status is only logged.
abbrev pub or_same : Payments → PayResult Payments → Payments
or_same w (done w') = w'
or_same w (fault e) = w

abbrev pub charged :
    PayEnv → String → PaymentIntent → Payments → Option String → Response × Payments
charged env id intent w (some e) =
    (record { status = 200; body = declined }, or_same w (update_status_of env id "failed" w))
charged env id intent w none = settle env intent w (update_status_of env id "succeeded" w)

abbrev pub confirm_found :
    PayEnv → String → PayResult (Option PaymentIntent) → Payments → Response × Payments
confirm_found env id (done (some intent)) w =
    if str_eq intent.status "succeeded"
    then (write_error "Payment already succeeded", w)
    else (let charge = charge_of intent in
        charged env id intent (record w { charges = w.charges ++ charge ∷ [] })
          (env.charge_error charge))
confirm_found env id _ w = (write_error "Payment intent not found", w)

abbrev pub confirm_id : PayEnv → Option String → Option String → Payments → Response × Payments
confirm_id env none method w = (write_error "Invalid path", w)
confirm_id env (some id) none w = (write_error "Invalid request body", w)
confirm_id env (some id) (some method) w =
    if str_eq method ""
    then (write_error "payment_method_id is required", w)
    else confirm_found env id (get_payment_intent env id w) w

-- `PaymentHandler.ConfirmPaymentIntent`
unfoldable pub confirm_intent : Handler
confirm_intent env r w =
    if r.is_post
    then confirm_id env (path_id r.path_parts) r.confirm_body w
    else (write_error "Method not allowed", w)

abbrev pub refunded : PayEnv → PaymentIntent → Payments → PayResult Payments → Response × Payments
refunded env intent w (fault e) = (write_error "Failed to update refund status", w)
refunded env intent _ (done w) =
    let w1 = publish env (payment_event "refund.completed" intent) w in
    (
      record { status = 200; body = intent_body (record intent { status = "refunded" }) },
      record w1 { audited = w1.audited ++ "payment.refunded" ∷ [] },
    )

abbrev pub refund_found :
    PayEnv → String → PayResult (Option PaymentIntent) → Payments → Response × Payments
refund_found env id (done (some intent)) w =
    if str_eq intent.status "succeeded"
    then refunded env intent w (update_status_of env id "refunded" w)
    else (write_error "Only succeeded payments can be refunded", w)
refund_found env id _ w = (write_error "Payment intent not found", w)

abbrev pub refund_id : PayEnv → Option String → Payments → Response × Payments
refund_id env none w = (write_error "Invalid path", w)
refund_id env (some id) w = refund_found env id (get_payment_intent env id w) w

-- `PaymentHandler.RefundPaymentIntent`
unfoldable pub refund_intent : Handler
refund_intent env r w =
    if r.is_post
    then refund_id env (path_id r.path_parts) w
    else (write_error "Method not allowed", w)

-- "Save key if it's not a server error (5xx)"; a failure to save is only logged.
abbrev pub save_response : PayEnv → String → String → Response × Payments → Response × Payments
save_response env user_id key (res, w) =
    if ltb res.status 500
    then (res, or_same w (save_idempotency_key env user_id key res w))
    else (res, w)

abbrev pub idempotent_lookup :
    PayEnv
    → Handler
    → Request
    → String
    → PayResult (Option IdempotencyRecord)
    → Payments
    → Response × Payments
idempotent_lookup env next r user_id (fault e) w = (write_error "Internal Server Error", w)
idempotent_lookup env next r user_id (done (some rec)) w =
    (record { status = rec.status_code; body = rec.response_body }, w)
idempotent_lookup env next r user_id (done none) w =
    save_response env user_id r.idempotency_key (next env r w)

abbrev pub idempotent_as :
    PayEnv → Handler → Request → Option String → Payments → Response × Payments
idempotent_as env next r none w = (unauthorized "Invalid token", w)
idempotent_as env next r (some user_id) w =
    if str_eq user_id ""
    then (unauthorized "Authentication required for idempotent requests", w)
    else idempotent_lookup env next r user_id (get_idempotency_key env user_id r.idempotency_key w)
        w

-- `PaymentHandler.IdempotencyMiddleware`
unfoldable pub idempotent : Handler → Handler
idempotent next env r w =
    if str_eq r.idempotency_key ""
    then next env r w
    else idempotent_as env next r (extract_user_id env r) w
