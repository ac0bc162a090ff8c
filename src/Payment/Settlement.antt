-- ===== src/Payment/Settlement.antt =====
-- What confirmations and refunds do on the path that goes through (cmd/payments/handlers.go).
use fintech_ecosystem.Base.{
  String, ◌<>◌, ◌≡◌, refl, ◌⊎◌, inl, inr, true, if◌then◌else◌, Option, none, some, map, find,
  str_eq, eq_iff, Bool-cases, Option-cases, arith,
}
use fintech_ecosystem.Base.Int.{ℤ, ◌+ℤ◌}
use fintech_ecosystem.Ledger.Store.{balance, has_reference, found_id}
use fintech_ecosystem.Ledger.Service.{LedgerService}
use fintech_ecosystem.Payment.Store.{
  PaymentIntent, Payments, PayEnv, PayResult, done, fault, update_status, has_id, set_status,
  get_payment_intent, update_status_of,
}
use fintech_ecosystem.Payment.Handlers.{
  Request, path_id, refund_found, confirm_intent, refund_intent,
}
use fintech_ecosystem.Payment.Lifecycle.{row_after, update_case, Refunds}

-- The balance of the user's account after the payment was told to the ledger: it has grown by the
-- amount if no transaction refers to the intent yet.
abbrev pub moved_by : PaymentIntent → LedgerService → ℤ
moved_by i s =
    let before = balance ("user_" <> i.user_id) s.db.entries in
    if str_eq (found_id (find (has_reference i.id) s.db.transactions)) ""
    then before +ℤ i.amount
    else before

-- Settled payments are not charged twice: where the intent has the status "succeeded", a
-- confirmation changes nothing and charges nothing.
pub confirm_succeeded :
    (env : PayEnv) (r : Request) (w : Payments) (id method : String) {i : PaymentIntent}
    → r.is_post ≡ true
    → path_id r.path_parts ≡ some id
    → r.confirm_body ≡ some method
    → find (has_id id) w.intents ≡ some i
    → i.status ≡ "succeeded"
    → (confirm_intent env r w).1 ≡ w
unfolding confirm_intent get_payment_intent
confirm_succeeded env r w id method {i} post path body found paid =
    ground (arith, eq_iff i.status "succeeded")

-- What a refund leaves of the table of intents, the ledger and the charges.
abbrev Refunded : Payments → Payments → Type 0
Refunded w w' =
    (w'.ledger ≡ w.ledger)
    × (w'.charges ≡ w.charges)
    × ((w'.intents ≡ w.intents)
        ⊎ ((id : String) × (intent : PaymentIntent) × (find (has_id id) w.intents ≡ some intent)
            × (intent.status ≡ "succeeded")
            × (w'.intents ≡ map (set_status id "refunded") w.intents)))

refund_found-Refunded :
    (env : PayEnv) (id : String) (found : PayResult (Option PaymentIntent)) (w : Payments)
    → ((intent : PaymentIntent)
        → found ≡ done (some intent)
        → find (has_id id) w.intents ≡ some intent)
    → Refunded w (refund_found env id found w).1
unfolding update_status_of
refund_found-Refunded env id (fault e) w h = (refl, refl, inl refl)
refund_found-Refunded env id (done none) w h = (refl, refl, inl refl)
refund_found-Refunded env id (done (some intent)) w h =
    elim (Bool-cases (str_eq intent.status "succeeded")) [
      | inr unpaid ↦ rw unpaid (refl, refl, inl refl)
      | inl paid ↦ elim (Option-cases (env.refuses w (update_status id "refunded"))) [
        | inr (e, down) ↦ rw (paid, down) (refl, refl, inl refl)
        | inl fine ↦
            let here = h intent refl in
            let status = (eq_iff intent.status "succeeded").0 paid in
            rw (paid, fine)
              (ground arith, ground arith, inr (id, intent, here, status, ground arith))
      ]
    ]

refund-Refunded : (env : PayEnv) (r : Request) (w : Payments) → Refunded w (refund_intent env r w).1
unfolding refund_intent get_payment_intent
refund-Refunded env r w = elim (Bool-cases r.is_post) [
  | inr other ↦ rw other (refl, refl, inl refl)
  | inl post ↦ elim (Option-cases (path_id r.path_parts)) [
    | inl short ↦ rw (post, short) (refl, refl, inl refl)
    | inr (id, path) ↦
        rw (post, path)
          (refund_found-Refunded env id (get_payment_intent env id w) w
            (λ intent e. found_row env id w intent e))
  ]
]
  where
    found_row :
        (env : PayEnv) (id : String) (w : Payments) (intent : PaymentIntent)
        → get_payment_intent env id w ≡ done (some intent)
        → find (has_id id) w.intents ≡ some intent
    found_row env id w intent h = ground arith

-- A refund, however it ends, leaves the ledger and the bank alone; an intent that was there is
-- still there, and it is as it was, or it had succeeded and only its status changed, to "refunded".
pub refund_transition :
    (env : PayEnv) (r : Request) (w : Payments) (j : String) {i : PaymentIntent}
    → find (has_id j) w.intents ≡ some i
    → let w' = (refund_intent env r w).1 in
      (w'.ledger ≡ w.ledger)
      × (w'.charges ≡ w.charges)
      × ((i' : PaymentIntent) × (find (has_id j) w'.intents ≡ some i') × Refunds i i')
refund_transition env r w j {i} h = moved (refund_intent env r w).1 (refund-Refunded env r w)
  where
    moved :
        (w' : Payments)
        → Refunded w w'
        → (w'.ledger ≡ w.ledger)
          × (w'.charges ≡ w.charges)
          × ((i' : PaymentIntent) × (find (has_id j) w'.intents ≡ some i') × Refunds i i')
    moved w' (l, c, inl same) = (l, c, (i, rw same h, inl refl))
    moved w' (l, c, inr (id, intent, k, paid, new)) = (
      l,
      c,
      (
        set_status id "refunded" i,
        rw new (row_after j id "refunded" w.intents h),
        elim (update_case j id "refunded" w.intents h k) [
          | inl kept ↦ inl kept
          | inr (own, set) ↦ inr (rw own paid, set)
        ],
      ),
    )
