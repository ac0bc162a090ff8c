-- ===== src/Payment/Idempotency.antt =====
-- The idempotency middleware of cmd/payments/handlers.go.
use fintech_ecosystem.Base.{
  ◌<◌, String, ◌≡◌, refl, sym, ◌≢◌, ◌∙◌, ap, true, none, some, All, List, [], ◌∷◌, ◌++◌, find,
  str_eq_ne, arith,
}
use fintech_ecosystem.Base.Int.{pos, ◌≤ℤ◌}
use fintech_ecosystem.Payment.Keys.{key_row, find_new, Attempt, KeepsKeys, served, find-served}
use fintech_ecosystem.Payment.Store.{
  Response, IdempotencyRecord, Payments, PayEnv, done, select_key, insert_key, insert_intent,
  has_key, get_idempotency_key, save_idempotency_key, create_payment_intent,
}
use fintech_ecosystem.Payment.Handlers.{
  CreateIntentRequest, Request, Handler, write_error, intent_of, extract_user_id, create_intent,
  idempotent, idempotent_lookup, save_response,
}

-- The database carries out what the middleware asks it before and after the handler.
pub record Serves (env : PayEnv) (user_id key : String) : Type 0 where
  pub reads : (w : Payments) → env.refuses w (select_key user_id key) ≡ none
  pub writes : (w : Payments) (row : IdempotencyRecord) → env.refuses w (insert_key row) ≡ none

saved :
    (env : PayEnv) (user_id key : String) (res : Response) (w : Payments)
    → Serves env user_id key
    → res.status < 500
    → save_response env user_id key (res, w)
      ≡ (res, record w { keys = w.keys ++ key_row user_id key res ∷ [] })
unfolding save_idempotency_key
saved env user_id key res w serves small = ground (arith, serves.writes w (key_row user_id key res))

-- The middleware on an authenticated request with a key.
keyed :
    (env : PayEnv) (next : Handler) (r : Request) (user_id : String) (w : Payments)
    → extract_user_id env r ≡ some user_id
    → user_id ≢ ""
    → r.idempotency_key ≢ ""
    → Serves env user_id r.idempotency_key
    → idempotent next env r w
      ≡ idempotent_lookup env next r user_id
          (done (find (has_key user_id r.idempotency_key) w.keys))
          w
unfolding idempotent get_idempotency_key
keyed env next r user_id w authenticated named has_a_key serves =
    ground
      (arith, str_eq_ne user_id "" named, str_eq_ne r.idempotency_key "" has_a_key, serves.reads w)

-- The first answer to a key is replayed: after a handler ran under a key that was new, and answered
-- with a status below 500, every later request of the user with that key gets the same status and
-- body, runs no handler and changes nothing, whatever it asks for and whichever requests of whichever
-- users were served in between. No handler may touch the table of keys, and the database must carry
-- out the lookups and the save of the two requests.
pub idempotent_replay :
    (env env' : PayEnv) (next next' : Handler) (r r' : Request) (user_id : String) (w : Payments)
    (attempts : List Attempt)
    → extract_user_id env r ≡ some user_id
    → extract_user_id env' r' ≡ some user_id
    → user_id ≢ ""
    → r.idempotency_key ≢ ""
    → r'.idempotency_key ≡ r.idempotency_key
    → Serves env user_id r.idempotency_key
    → Serves env' user_id r'.idempotency_key
    → find (has_key user_id r.idempotency_key) w.keys ≡ none
    → (next env r w).1.keys ≡ w.keys
    → (next env r w).0.status < 500
    → All KeepsKeys attempts
    → let (res, w1) = idempotent next env r w in
      let w2 = served attempts w1 in
      (res ≡ (next env r w).0) × (idempotent next' env' r' w2 ≡ (res, w2))
idempotent_replay env env' next next' r r' user_id w attempts auth auth' named has_a_key same serves
      serves' unused keeps small others =
    let key = r.idempotency_key in
    let (res, w') = next env r w in
    let w1 = record w' { keys = w'.keys ++ key_row user_id key res ∷ [] } in
    let w2 = served attempts w1 in
    let first : idempotent next env r w ≡ (res, w1) =
      keyed env next r user_id w auth named has_a_key serves
      ∙ rw unused (saved env user_id key res w' serves small) in
    let kept : find (has_key user_id key) w1.keys ≡ some (key_row user_id key res) =
      rw keeps (find_new user_id key res w.keys unused) in
    let found : find (has_key user_id r'.idempotency_key) w2.keys ≡ some (key_row user_id key res) =
      rw same (find-served user_id key attempts w1 others kept) in
    rw first (
      refl,
      keyed env' next' r' user_id w2 auth' named (λ e. has_a_key (sym same ∙ e)) serves'
          ∙ rw found refl,
    )

failed_create :
    (env : PayEnv) (r : Request) (user_id e : String) (req : CreateIntentRequest) (w : Payments)
    → r.is_post ≡ true
    → extract_user_id env r ≡ some user_id
    → user_id ≢ ""
    → r.create_body ≡ some req
    → pos 1 ≤ℤ req.amount
    → req.currency ≢ ""
    → env.refuses w (insert_intent (intent_of r user_id req)) ≡ some e
    → create_intent env r w ≡ (write_error "Failed to create payment intent", w)
unfolding create_intent create_payment_intent
failed_create env r user_id e req w post auth named body positive money refused =
    ground (arith, str_eq_ne user_id "" named, str_eq_ne req.currency "" money)

-- A database error while an intent is created is answered with status 400, so the middleware keeps
-- it: every retry with the same key gets that error again and creates nothing, also when the
-- database works.
pub failed_create_replayed :
    (env env' : PayEnv) (r : Request) (user_id e : String) (req : CreateIntentRequest)
    (w : Payments)
    → r.is_post ≡ true
    → extract_user_id env r ≡ some user_id
    → extract_user_id env' r ≡ some user_id
    → user_id ≢ ""
    → r.idempotency_key ≢ ""
    → r.create_body ≡ some req
    → pos 1 ≤ℤ req.amount
    → req.currency ≢ ""
    → env.refuses w (insert_intent (intent_of r user_id req)) ≡ some e
    → Serves env user_id r.idempotency_key
    → Serves env' user_id r.idempotency_key
    → find (has_key user_id r.idempotency_key) w.keys ≡ none
    → let w1 = (idempotent create_intent env r w).1 in
      (w1.intents ≡ w.intents)
      × (idempotent create_intent env' r w1 ≡ (write_error "Failed to create payment intent", w1))
unfolding served
failed_create_replayed env env' r user_id e req w post auth auth' named has_a_key body positive
      money refused serves serves' unused =
    let failed = failed_create env r user_id e req w post auth named body positive money refused in
    let key = r.idempotency_key in
    let res = write_error "Failed to create payment intent" in
    let first : idempotent create_intent env r w
        ≡ (res, record w { keys = w.keys ++ key_row user_id key res ∷ [] }) =
      keyed env create_intent r user_id w auth named has_a_key serves
      ∙ rw (unused, failed) (saved env user_id key res w serves (omega arith)) in
    let (answered, replayed) =
      idempotent_replay env env' create_intent create_intent r r user_id w [] auth auth' named
        has_a_key refl serves serves' unused (rw failed) (rw failed (omega arith)) tt in
    (
      rw first,
      replayed
          ∙ ap (λ (x : Response). (x, (idempotent create_intent env r w).1))
              (answered ∙ ap (λ (p : Response × Payments). p.0) failed),
    )
