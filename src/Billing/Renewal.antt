-- ===== src/Billing/Renewal.antt =====
-- What a run of the worker does (internal/billing/service/worker.go).
use fintech_ecosystem.Base.{
  String, ◌≡◌, refl, ◌∙◌, ap, true, false, ◌&&◌, none, some, List, [], ◌∷◌, ◌++◌, map, find, select,
  update, All, str_eq, eq_iff, Bool-cases, Option-cases, inl, inr, arith,
}
use fintech_ecosystem.Billing.Calendar.{Time, IsDate, not_after, next_period-IsDate}
use fintech_ecosystem.Billing.Store.{
  Plan, Subscription, is_active, BillingDb, read_subscription, write_subscription, list_due,
  read_plan, good, is_subscription, is_plan, is_due, scan_due, rewrite, get_plan,
  update_subscription, list_due_subscriptions, get_subscription,
}
use fintech_ecosystem.Billing.Service.{cancel, cancel_subscription}
use fintech_ecosystem.Billing.Worker.{
  Charge, BillingEnv, Billing, charge_of, renew, lapse, written, lapsed, process_subscription,
  process_next, process_all, run_process,
}

-- The rows of an id.
abbrev pub rows_of : String → BillingDb → List Subscription
rows_of id db = select (is_subscription id) db.subscriptions

-- An update of another id leaves them.
select-update :
    (id : String) (sub : Subscription) (rows : List Subscription)
    → str_eq sub.id id ≡ false
    → select (is_subscription id) (update (is_subscription sub.id) (rewrite sub) rows)
      ≡ select (is_subscription id) rows
select-update id sub [] other = refl
select-update id sub (row ∷ rows) other = ground (
  arith,
  other,
  eq_iff row.id sub.id,
  eq_iff row.id id,
  eq_iff sub.id id,
  select-update id sub rows other,
)

update_other :
    (env : BillingEnv) (id : String) (sub : Subscription) (b : Billing) (charges : List Charge)
    → str_eq sub.id id ≡ false
    → (rows_of id
          (written (record b { charges = charges }) (update_subscription env.refuses sub b.db)).1.db
        ≡ rows_of id b.db)
      × (rows_of id (lapsed b (update_subscription env.refuses sub b.db)).1.db ≡ rows_of id b.db)
unfolding update_subscription
update_other env id sub b charges other = elim (Bool-cases (env.refuses b.db write_subscription)) [
  | inl refused ↦ rw refused (refl, refl)
  | inr kept ↦ let same = select-update id sub b.db.subscriptions other in rw kept (same, same)
]

process_other :
    (env : BillingEnv) (id : String) (sub : Subscription) (b b' : Billing)
    → str_eq sub.id id ≡ false
    → process_next env sub (some b) ≡ some b'
    → rows_of id b'.db ≡ rows_of id b.db
unfolding process_subscription get_plan
process_other env id sub b b' other run = elim (Bool-cases (env.refuses b.db read_plan)) [
  | inl refused ↦ ground (arith, refused, run)
  | inr read ↦ elim (Option-cases (find (is_plan sub.plan_id) b.db.plans)) [
    | inl missing ↦ absurd (ground (arith, read, missing, run))
    | inr (plan, found) ↦ elim (Bool-cases (env.takes b.charges (charge_of sub plan))) [
      | inl taken ↦
          let same =
            update_other env id (renew sub plan) b (b.charges ++ charge_of sub plan ∷ []) other in
          ground (arith, read, found, taken, run, same.0)
      | inr not_taken ↦
          let same = update_other env id (lapse sub) b [] other in
          ground (arith, read, found, not_taken, run, same.1)
    ]
  ]
]

process_all-none : (env : BillingEnv) (subs : List Subscription) → process_all env subs none ≡ none
unfolding process_all
process_all-none env [] = refl
process_all-none env (sub ∷ subs) = process_all-none env subs

process_others :
    (env : BillingEnv) (id : String) (subs : List Subscription) (b b' : Billing)
    → All (λ sub. str_eq sub.id id ≡ false) subs
    → process_all env subs (some b) ≡ some b'
    → rows_of id b'.db ≡ rows_of id b.db
unfolding process_all
process_others env id [] b b' others run = ground (arith, run)
process_others env id (sub ∷ subs) b b' (other, others) run =
    elim (Option-cases (process_next env sub (some b))) [
      | inl ends ↦ absurd (ground (arith, run, ends, process_all-none env subs))
      | inr (b1, e) ↦
          process_others env id subs b1 b' others (rw e at run)
          ∙ process_other env id sub b b1 other e
    ]

due_others :
    (id : String) (now : Time) (rows : List Subscription)
    → All (λ row. (str_eq row.id id && is_active row.status) ≡ false) rows
    → All (λ sub. str_eq sub.id id ≡ false) (map scan_due (select (is_due now) rows))
due_others id now [] none_active = tt
due_others id now (row ∷ rows) (here, there) = elim (Bool-cases (is_due now row)) [
  | inl due ↦
      let kept : select (is_due now) (row ∷ rows) ≡ row ∷ select (is_due now) rows =
        ground (arith, due) in
      rw kept (ground (arith, here, due), due_others id now rows there)
  | inr later ↦
      let left : select (is_due now) (row ∷ rows) ≡ select (is_due now) rows =
        ground (arith, later) in
      rw left (due_others id now rows there)
]

-- The worker renews active subscriptions only: a run that ends leaves every row of an id as it is,
-- where no row of that id is active, be it canceled or past due.
pub inactive_untouched :
    (env : BillingEnv) (now : Time) (id : String) (b b' : Billing)
    → All (λ row. (str_eq row.id id && is_active row.status) ≡ false) b.db.subscriptions
    → run_process env now b ≡ some b'
    → rows_of id b'.db ≡ rows_of id b.db
unfolding run_process list_due_subscriptions
inactive_untouched env now id b b' none_active run = elim (Bool-cases (env.refuses b.db list_due)) [
  | inl refused ↦ ground (arith, refused, run)
  | inr listed ↦
      process_others env id (map scan_due (select (is_due now) b.db.subscriptions)) b b'
        (due_others id now b.db.subscriptions none_active) (rw listed at run)
]

find-update :
    (id : String) (sub row : Subscription) (rows : List Subscription)
    → sub.id ≡ id
    → find (is_subscription id) rows ≡ some row
    → find (is_subscription id) (update (is_subscription sub.id) (rewrite sub) rows)
      ≡ some (rewrite sub row)
find-update id sub row [] same found = absurd (ground (arith, found))
find-update id sub row (r ∷ rows) same found =
    ground (arith, found, same, find-update id sub row rows same)

-- The database answers what a renewal asks of it, and the payment is taken.
pub record CanRenew (env : BillingEnv) (sub : Subscription) (plan : Plan) (b : Billing)
    : Type 0 where
  pub reads : env.refuses b.db read_plan ≡ false
  pub writes : env.refuses b.db write_subscription ≡ false
  pub planned : find (is_plan sub.plan_id) b.db.plans ≡ some plan
  pub taken : env.takes b.charges (charge_of sub plan) ≡ true

process_writes :
    (env : BillingEnv) (sub row : Subscription) (plan : Plan) (b : Billing)
    → CanRenew env sub plan b
    → find (is_subscription sub.id) b.db.subscriptions ≡ some row
    → (b' : Billing) × (process_subscription env sub b ≡ some (none, b'))
      × (b'.charges ≡ b.charges ++ charge_of sub plan ∷ [])
      × (find (is_subscription sub.id) b'.db.subscriptions ≡ some (rewrite (renew sub plan) row))
unfolding process_subscription get_plan update_subscription
process_writes env sub row plan b can stored = (
  record {
    db = record b.db {
      subscriptions = update (is_subscription sub.id) (rewrite (renew sub plan)) b.db.subscriptions;
    };
    charges = b.charges ++ charge_of sub plan ∷ [];
  },
  rw (can.reads, can.planned, can.taken, can.writes) refl,
  refl,
  find-update sub.id (renew sub plan) row b.db.subscriptions refl stored,
)

-- A renewal charges once and leaves no gap: where the statements are answered and the payment is
-- taken, a subscription that was listed as due, and whose period ends on a date of the calendar,
-- gets one charge of its plan's amount, its new period begins where the last one ended and ends at
-- a later date, and it is active.
pub process_renews :
    (env : BillingEnv) (row : Subscription) (plan : Plan) (b : Billing)
    → CanRenew env (scan_due row) plan b
    → find (is_subscription row.id) b.db.subscriptions ≡ some row
    → IsDate row.current_period_end
    → (b' : Billing) × (row' : Subscription) × (process_subscription env (scan_due row) b
        ≡ some (none, b'))
      × (b'.charges ≡ b.charges ++ charge_of row plan ∷ [])
      × (find (is_subscription row.id) b'.db.subscriptions ≡ some row')
      × (is_active row'.status ≡ true)
      × (row'.current_period_start ≡ row.current_period_end)
      × IsDate row'.current_period_end
      × (not_after row'.current_period_end row'.current_period_start ≡ false)
process_renews env row plan b can stored date =
    let (b', run, charges, found) = process_writes env (scan_due row) row plan b can stored in
    let (is_date, later) = next_period-IsDate row.current_period_end plan.interval date in
    (b', rewrite (renew (scan_due row) plan) row, run, charges, found, refl, refl, is_date, later)

-- A cancellation between the list and the renewal is lost: where a subscription was listed as due,
-- is canceled with the database's answer, and is processed then with its payment taken, it ends as
-- an active one, charged, without a time of cancellation.
pub cancel_lost :
    (env : BillingEnv) (now : Time) (row : Subscription) (plan : Plan) (b : Billing)
    → find (is_subscription row.id) b.db.subscriptions ≡ some row
    → env.refuses b.db read_subscription ≡ false
    → env.refuses b.db write_subscription ≡ false
    → let db1 = (cancel_subscription env.refuses now row.id b.db).1 in
      CanRenew env (scan_due row) plan (record b { db = db1 })
      → ((cancel_subscription env.refuses now row.id b.db).0 ≡ good (cancel now row))
        × (b' : Billing) × (row' : Subscription) × (process_subscription env
              (scan_due row)
              (record b { db = db1 })
            ≡ some (none, b'))
        × (b'.charges ≡ b.charges ++ charge_of row plan ∷ [])
        × (find (is_subscription row.id) b'.db.subscriptions ≡ some row')
        × (is_active row'.status ≡ true)
        × (row'.canceled_at ≡ none)
unfolding cancel_subscription get_subscription update_subscription
cancel_lost env now row plan b stored reads writes can =
    let db1 = (cancel_subscription env.refuses now row.id b.db).1 in
    let made : cancel_subscription env.refuses now row.id b.db ≡ (
      good (cancel now row),
      record b.db {
        subscriptions =
            update (is_subscription row.id) (rewrite (cancel now row)) b.db.subscriptions;
      },
    ) =
      rw (reads, stored, writes) refl in
    let kept : find (is_subscription row.id) db1.subscriptions
        ≡ some (rewrite (cancel now row) row) =
      rw made (find-update row.id (cancel now row) row b.db.subscriptions refl stored) in
    let (b', run, charges, found) =
      process_writes env (scan_due row) (rewrite (cancel now row) row) plan (record b { db = db1 })
        can kept in
    (
      ap (λ x. x.0) made,
      b',
      rewrite (renew (scan_due row) plan) row,
      run,
      charges,
      found,
      refl,
      refl,
    )
