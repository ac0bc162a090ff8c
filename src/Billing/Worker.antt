-- ===== src/Billing/Worker.antt =====
-- internal/billing/service/worker.go: `SubscriptionWorker`.
use fintech_ecosystem.Base.{String, Bool, true, false, Option, none, some, List, [], ◌∷◌, ◌++◌}
use fintech_ecosystem.Base.Int.{ℤ}
use fintech_ecosystem.Billing.Calendar.{Time, calculate_next_period}
use fintech_ecosystem.Billing.Store.{
  Plan, Subscription, active, past_due, BillingDb, BillingError, payment, BillingResult, good, bad,
  Refusal, list_due_subscriptions, update_subscription, get_plan,
}

-- A call of `CreatePayment`.
pub record Charge : Type 0 where
  pub user_id : String
  pub org_id : String
  pub amount : ℤ
  pub currency : String

-- The payment service, which is outside: whether it takes a charge behind those it took.
pub record BillingEnv : Type 0 where
  pub refuses : Refusal
  pub takes : List Charge → Charge → Bool

pub record Billing : Type 0 where
  pub db : BillingDb
  pub charges : List Charge

abbrev pub charge_of : Subscription → Plan → Charge
charge_of sub plan = record {
  user_id = sub.user_id;
  org_id = sub.org_id;
  amount = plan.amount;
  currency = plan.currency;
}

abbrev pub renew : Subscription → Plan → Subscription
renew sub plan = record sub {
  current_period_start = sub.current_period_end;
  current_period_end = calculate_next_period sub.current_period_end plan.interval;
  status = active;
}

abbrev pub lapse : Subscription → Subscription
lapse sub = record sub { status = past_due }

-- The error of `UpdateSubscription` is returned.
abbrev pub written : Billing → BillingResult BillingDb → Option BillingError × Billing
written b (bad e) = (some e, b)
written b (good db) = (none, record b { db = db })

-- A payment that was refused is the error, whatever becomes of the update.
abbrev pub lapsed : Billing → BillingResult BillingDb → Option BillingError × Billing
lapsed b (bad e) = (some payment, b)
lapsed b (good db) = (some payment, record b { db = db })

abbrev pub paid : BillingEnv → Subscription → Plan → Billing → Bool → Option BillingError × Billing
paid env sub plan b false = lapsed b (update_subscription env.refuses (lapse sub) b.db)
paid env sub plan b true =
    written (record b { charges = b.charges ++ charge_of sub plan ∷ [] })
      (update_subscription env.refuses (renew sub plan) b.db)

-- A plan that is missing is a nil that `plan.Amount` reads: the process ends there (`none`).
abbrev pub charged :
    BillingEnv
    → Subscription
    → Billing
    → BillingResult (Option Plan)
    → Option (Option BillingError × Billing)
charged env sub b (bad e) = some (some e, b)
charged env sub b (good none) = none
charged env sub b (good (some plan)) =
    some (paid env sub plan b (env.takes b.charges (charge_of sub plan)))

-- `processSubscription`
unfoldable pub process_subscription :
    BillingEnv → Subscription → Billing → Option (Option BillingError × Billing)
process_subscription env sub b = charged env sub b (get_plan env.refuses sub.plan_id b.db)

-- The loop of `runProcess`: an error is logged, and the next subscription is processed.
abbrev pub proceed : Option (Option BillingError × Billing) → Option Billing
proceed none = none
proceed (some (_, b)) = some b

abbrev pub process_next : BillingEnv → Subscription → Option Billing → Option Billing
process_next env sub none = none
process_next env sub (some b) = proceed (process_subscription env sub b)

unfoldable pub process_all : BillingEnv → List Subscription → Option Billing → Option Billing
process_all env [] b = b
process_all env (sub ∷ subs) b = process_all env subs (process_next env sub b)

abbrev pub process_listed :
    BillingEnv → Billing → BillingResult (List Subscription) → Option Billing
process_listed env b (bad e) = some b
process_listed env b (good subs) = process_all env subs (some b)

-- `runProcess`
unfoldable pub run_process : BillingEnv → Time → Billing → Option Billing
run_process env now b = process_listed env b (list_due_subscriptions env.refuses now b.db)
