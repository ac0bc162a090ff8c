-- ===== src/Payment/Lifecycle.antt =====
-- The life of a payment intent under the handlers of cmd/payments/handlers.go: which changes of
-- status there are, what is charged, and what the ledger is told.
use fintech_ecosystem.Base.{
  String, ◌≡◌, refl, sym, ◌≢◌, ◌∙◌, ap, ◌⊎◌, inl, inr, Option, none, some, List, [], ◌∷◌, ◌++◌, map,
  find, str_eq, eq_iff, Bool-cases, arith,
}
use mathlib.Core.Option
use fintech_ecosystem.Payment.Store.{
  PaymentIntent, Payments, PayEnv, PayResult, done, fault, has_id, set_status, get_payment_intent,
  update_status_of,
}
use fintech_ecosystem.Payment.Handlers.{
  Request, path_id, charge_of, charged, confirm_found, confirm_id, confirm_intent,
}

-- An update of the status keeps every row's id, so it commutes with the search by id.
pub find-set_status :
    (j id status : String) (rows : List PaymentIntent)
    → find (has_id j) (map (set_status id status) rows)
      ≡ Option.map (set_status id status) (find (has_id j) rows)
find-set_status j id status [] = refl
find-set_status j id status (row ∷ rows) = ground (arith, find-set_status j id status rows)

-- What a confirmation may do to the intent that it is for.
abbrev pub Confirms : PaymentIntent → PaymentIntent → Type 0
Confirms i i' =
    (i.status ≢ "succeeded")
    × ((i' ≡ record i { status = "succeeded" }) ⊎ (i' ≡ record i { status = "failed" }))

-- What a refund may do to an intent.
abbrev pub Refunds : PaymentIntent → PaymentIntent → Type 0
Refunds i i' = (i' ≡ i) ⊎ ((i.status ≡ "succeeded") × (i' ≡ record i { status = "refunded" }))

-- The table of intents that a confirmation leaves.
abbrev Settled : String → Payments → List PaymentIntent → Type 0
Settled id w rows =
    (rows ≡ w.intents)
    ⊎ ((rows ≡ map (set_status id "succeeded") w.intents)
        ⊎ (rows ≡ map (set_status id "failed") w.intents))

charged-Settled :
    (env : PayEnv) (id : String) (intent : PaymentIntent) (w : Payments) (o : Option String)
    → Settled id w (charged env id intent w o).1.intents
unfolding update_status_of
charged-Settled env id intent w (some e) = ground arith
charged-Settled env id intent w none = ground arith

-- It is left as it was, or updated at the id of the path, which an unsettled intent has.
abbrev Confirmed : Option String → Payments → List PaymentIntent → Type 0
Confirmed path w rows =
    (rows ≡ w.intents)
    ⊎ ((id : String) × (intent : PaymentIntent) × (path ≡ some id)
        × (find (has_id id) w.intents ≡ some intent)
        × (intent.status ≢ "succeeded")
        × Settled id w rows)

confirm_found-Confirmed :
    (env : PayEnv) (id : String) (found : PayResult (Option PaymentIntent)) (w : Payments)
    → ((intent : PaymentIntent)
        → found ≡ done (some intent)
        → find (has_id id) w.intents ≡ some intent)
    → Confirmed (some id) w (confirm_found env id found w).1.intents
confirm_found-Confirmed env id (fault e) w h = inl refl
confirm_found-Confirmed env id (done none) w h = inl refl
confirm_found-Confirmed env id (done (some intent)) w h =
    elim (Bool-cases (str_eq intent.status "succeeded")) [
      | inl paid ↦ inl (rw paid)
      | inr unpaid ↦ inr (
        id,
        intent,
        refl,
        h intent refl,
        (λ e. cc ((eq_iff intent.status "succeeded").1 e, unpaid)),
        rw unpaid (
            charged-Settled env id intent
              (record w { charges = w.charges ++ charge_of intent ∷ [] })
              (env.charge_error (charge_of intent))),
      )
    ]

found_row :
    (env : PayEnv) (id : String) (w : Payments) (intent : PaymentIntent)
    → get_payment_intent env id w ≡ done (some intent)
    → find (has_id id) w.intents ≡ some intent
unfolding get_payment_intent
found_row env id w intent h = ground arith

confirm_id-Confirmed :
    (env : PayEnv) (id method : Option String) (w : Payments)
    → Confirmed id w (confirm_id env id method w).1.intents
confirm_id-Confirmed env none method w = inl refl
confirm_id-Confirmed env (some id) none w = inl refl
confirm_id-Confirmed env (some id) (some method) w = elim (Bool-cases (str_eq method "")) [
  | inl missing ↦ inl (rw missing)
  | inr given ↦
      rw given (confirm_found-Confirmed env id (get_payment_intent env id w) w (found_row env id w))
]

confirm-Confirmed :
    (env : PayEnv) (r : Request) (w : Payments)
    → Confirmed (path_id r.path_parts) w (confirm_intent env r w).1.intents
unfolding confirm_intent
confirm-Confirmed env r w = elim (Bool-cases r.is_post) [
  | inl post ↦ rw post (confirm_id-Confirmed env (path_id r.path_parts) r.confirm_body w)
  | inr other ↦ inl (rw other)
]

-- The row behind an id after an update of the status of another id or of its own.
pub row_after :
    (j id status : String) (rows : List PaymentIntent) {i : PaymentIntent}
    → find (has_id j) rows ≡ some i
    → find (has_id j) (map (set_status id status) rows) ≡ some (set_status id status i)
row_after j id status rows h = find-set_status j id status rows ∙ rw h

pub has_id_of_find :
    (j : String) (rows : List PaymentIntent) {i : PaymentIntent}
    → find (has_id j) rows ≡ some i
    → i.id ≡ j
has_id_of_find j [] h = cc
has_id_of_find j (row ∷ rows) {i} h = ground (arith, eq_iff row.id j, has_id_of_find j rows {i = i})

pub update_case :
    (j id status : String) (rows : List PaymentIntent) {i intent : PaymentIntent}
    → find (has_id j) rows ≡ some i
    → find (has_id id) rows ≡ some intent
    → (set_status id status i ≡ i)
      ⊎ ((i ≡ intent) × (set_status id status i ≡ record i { status = status }))
update_case j id status rows {i} {intent} h k = elim (Bool-cases (str_eq i.id id)) [
  | inr other ↦ inl (rw other)
  | inl own ↦
      let same : j ≡ id = sym (has_id_of_find j rows h) ∙ (eq_iff i.id id).0 own in
      let own_row : find (has_id j) rows ≡ some intent = rw same k in inr (ground arith, rw own)
]

row_of_path :
    (path : Option String) (j id : String) (rows : List PaymentIntent) {i intent : PaymentIntent}
    → path ≡ some id
    → find (has_id j) rows ≡ some i
    → find (has_id id) rows ≡ some intent
    → i ≡ intent
    → path ≡ some j
row_of_path path j id rows at h k own =
    let same : id ≡ j =
      sym (has_id_of_find id rows k)
      ∙ sym (ap (λ (x : PaymentIntent). x.id) own)
      ∙ has_id_of_find j rows h in
    at ∙ ap some same

-- Whatever a confirmation is asked and however it ends, an intent that was there is still there.
-- It is as it was, or it is the one whose id the path of the request names, it had not succeeded and
-- only its status changed, to "succeeded" or "failed".
pub confirm_transition :
    (env : PayEnv) (r : Request) (w : Payments) (j : String) {i : PaymentIntent}
    → find (has_id j) w.intents ≡ some i
    → (i' : PaymentIntent) × (find (has_id j) (confirm_intent env r w).1.intents ≡ some i')
      × ((i' ≡ i) ⊎ ((path_id r.path_parts ≡ some j) × Confirms i i'))
confirm_transition env r w j {i} h =
    moved (confirm_intent env r w).1.intents (confirm-Confirmed env r w)
  where
    moved :
        (rows : List PaymentIntent)
        → Confirmed (path_id r.path_parts) w rows
        → (i' : PaymentIntent) × (find (has_id j) rows ≡ some i')
          × ((i' ≡ i) ⊎ ((path_id r.path_parts ≡ some j) × Confirms i i'))
    moved rows (inl same) = (i, rw same h, inl refl)
    moved rows (inr (id, intent, at, k, unpaid, inl same)) = (i, rw same h, inl refl)
    moved rows (inr (id, intent, at, k, unpaid, inr (inl new))) = (
      set_status id "succeeded" i,
      rw new (row_after j id "succeeded" w.intents h),
      elim (update_case j id "succeeded" w.intents h k) [
        | inl kept ↦ inl kept
        | inr (own, set) ↦ inr (
          row_of_path (path_id r.path_parts) j id w.intents at h k own,
          ((λ e. unpaid (rw (← own) e)), inl set),
        )
      ],
    )
    moved rows (inr (id, intent, at, k, unpaid, inr (inr new))) = (
      set_status id "failed" i,
      rw new (row_after j id "failed" w.intents h),
      elim (update_case j id "failed" w.intents h k) [
        | inl kept ↦ inl kept
        | inr (own, set) ↦ inr (
          row_of_path (path_id r.path_parts) j id w.intents at h k own,
          ((λ e. unpaid (rw (← own) e)), inr set),
        )
      ],
    )
