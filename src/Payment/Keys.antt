-- ===== src/Payment/Keys.antt =====
-- The table of idempotency keys under any sequence of requests to the middleware of
-- cmd/payments/handlers.go: no request takes the first row of a key away.
use fintech_ecosystem.Base.{
  String, ◌≡◌, refl, subst, ◌⊎◌, inl, inr, Option, none, some, All, Bool-cases, Option-cases,
  str_eq, ltb, List, [], ◌∷◌, ◌++◌, find, str_eq_self, arith,
}
use fintech_ecosystem.Payment.Store.{
  Response, IdempotencyRecord, Payments, PayEnv, PayResult, done, fault, insert_key, has_key,
  get_idempotency_key, save_idempotency_key, create_payment_intent,
}
use fintech_ecosystem.Payment.Handlers.{
  Request, Handler, extract_user_id, create_intent, idempotent, idempotent_as, idempotent_lookup,
  save_response,
}

-- The row that a response leaves.
abbrev pub key_row : String → String → Response → IdempotencyRecord
key_row user_id key res = record {
  user_id = user_id;
  key = key;
  response_body = res.body;
  status_code = res.status;
}

pub find_new :
    (user_id key : String) (res : Response) (rows : List IdempotencyRecord)
    → find (has_key user_id key) rows ≡ none
    → find (has_key user_id key) (rows ++ key_row user_id key res ∷ [])
      ≡ some (key_row user_id key res)
find_new user_id key res [] h = ground (arith, str_eq_self user_id, str_eq_self key)
find_new user_id key res (row ∷ rows) h = ground (arith, find_new user_id key res rows)

-- One request to the middleware, with the handler behind it and what it meets.
pub record Attempt : Type 0 where
  pub env : PayEnv
  pub next : Handler
  pub request : Request

-- The handler leaves the table of keys to the middleware.
abbrev pub KeepsKeys : Attempt → Type 0
KeepsKeys a = (w : Payments) → (a.next a.env a.request w).1.keys ≡ w.keys

unfoldable pub served : List Attempt → Payments → Payments
served [] w = w
served (a ∷ attempts) w = served attempts (idempotent a.next a.env a.request w).1

-- A table of keys, or the same with one row more.
abbrev Grown : List IdempotencyRecord → List IdempotencyRecord → Type 0
Grown keys keys' = (keys' ≡ keys) ⊎ ((row : IdempotencyRecord) × (keys' ≡ keys ++ row ∷ []))

save-Grown :
    (env : PayEnv) (user_id key : String) (res : Response) (w : Payments)
    → Grown w.keys (save_response env user_id key (res, w)).1.keys
unfolding save_idempotency_key
save-Grown env user_id key res w = elim (Bool-cases (ltb res.status 500)) [
  | inr failed ↦ inl (rw failed)
  | inl small ↦ elim (Option-cases (env.refuses w (insert_key (key_row user_id key res)))) [
    | inr (e, refused) ↦ inl (rw (small, refused))
    | inl fine ↦ inr (key_row user_id key res, rw (small, fine))
  ]
]

lookup-Grown :
    (a : Attempt) (user_id : String) (found : PayResult (Option IdempotencyRecord)) (w : Payments)
    → KeepsKeys a
    → Grown w.keys (idempotent_lookup a.env a.next a.request user_id found w).1.keys
lookup-Grown a user_id (fault e) w keeps = inl refl
lookup-Grown a user_id (done (some rec)) w keeps = inl refl
lookup-Grown a user_id (done none) w keeps =
    let (res, w') = a.next a.env a.request w in
    subst
      (λ keys. Grown keys (save_response a.env user_id a.request.idempotency_key (res, w')).1.keys)
      (keeps w) (save-Grown a.env user_id a.request.idempotency_key res w')

as-Grown :
    (a : Attempt) (user : Option String) (w : Payments)
    → KeepsKeys a
    → Grown w.keys (idempotent_as a.env a.next a.request user w).1.keys
as-Grown a none w keeps = inl refl
as-Grown a (some user_id) w keeps = elim (Bool-cases (str_eq user_id "")) [
  | inl unnamed ↦ inl (rw unnamed)
  | inr named ↦ rw named (
      lookup-Grown a user_id (get_idempotency_key a.env user_id a.request.idempotency_key w) w
        keeps)
]

idempotent-Grown :
    (a : Attempt) (w : Payments)
    → KeepsKeys a
    → Grown w.keys (idempotent a.next a.env a.request w).1.keys
unfolding idempotent
idempotent-Grown a w keeps = elim (Bool-cases (str_eq a.request.idempotency_key "")) [
  | inl plain ↦ inl (rw plain (keeps w))
  | inr keyed ↦ rw keyed (as-Grown a (extract_user_id a.env a.request) w keeps)
]

find-old :
    (user_id key : String) (row : IdempotencyRecord) (rows : List IdempotencyRecord)
    {first : IdempotencyRecord}
    → find (has_key user_id key) rows ≡ some first
    → find (has_key user_id key) (rows ++ row ∷ []) ≡ some first
find-old user_id key row [] h = cc
find-old user_id key row (x ∷ rows) {first} h =
    ground (arith, h, find-old user_id key row rows {first = first})

find-Grown :
    (user_id key : String) (keys keys' : List IdempotencyRecord) {first : IdempotencyRecord}
    → find (has_key user_id key) keys ≡ some first
    → Grown keys keys'
    → find (has_key user_id key) keys' ≡ some first
find-Grown user_id key keys keys' h (inl same) = rw same h
find-Grown user_id key keys keys' h (inr (row, more)) = rw more (find-old user_id key row keys h)

-- The first row of a key stays the first whatever requests are served.
pub find-served :
    (user_id key : String) (attempts : List Attempt) (w : Payments) {first : IdempotencyRecord}
    → All KeepsKeys attempts
    → find (has_key user_id key) w.keys ≡ some first
    → find (has_key user_id key) (served attempts w).keys ≡ some first
unfolding served
find-served user_id key [] w keeps h = h
find-served user_id key (a ∷ attempts) w (keeps, others) h =
    let w1 = (idempotent a.next a.env a.request w).1 in
    find-served user_id key attempts w1 others
      (find-Grown user_id key w.keys w1.keys h (idempotent-Grown a w keeps))

-- Creating an intent leaves the table of keys.
pub create_intent-KeepsKeys :
    (env : PayEnv) (r : Request)
    → KeepsKeys (record { env = env; next = create_intent; request = r })
unfolding create_intent create_payment_intent
create_intent-KeepsKeys env r w = ground arith
