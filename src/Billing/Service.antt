-- ===== src/Billing/Service.antt =====
-- internal/billing/domain/service.go: `BillingService`.
use fintech_ecosystem.Base.{String, Option, none, some}
use fintech_ecosystem.Billing.Calendar.{Time, calculate_next_period}
use fintech_ecosystem.Billing.Store.{
  Plan, Subscription, active, canceled, BillingDb, plan_not_found, subscription_not_found,
  BillingResult, good, bad, Refusal, create_subscription_row, get_subscription, update_subscription,
  get_plan,
}

-- The subscription that is returned, with the tables that the last statement left.
abbrev pub stored :
    Subscription → BillingDb → BillingResult BillingDb → BillingResult Subscription × BillingDb
stored sub db (bad e) = (bad e, db)
stored sub _ (good db) = (good sub, db)

abbrev pub new_subscription : String → Time → String → String → String → Plan → Subscription
new_subscription uuid now user_id org_id plan_id plan = record {
  id = uuid;
  user_id = user_id;
  org_id = org_id;
  plan_id = plan_id;
  status = active;
  current_period_start = now;
  current_period_end = calculate_next_period now plan.interval;
  canceled_at = none;
}

abbrev pub subscribed :
    Refusal
    → (Plan → Subscription)
    → BillingDb
    → BillingResult (Option Plan)
    → BillingResult Subscription × BillingDb
subscribed refuses make db (bad e) = (bad e, db)
subscribed refuses make db (good none) = (bad plan_not_found, db)
subscribed refuses make db (good (some plan)) =
    stored (make plan) db (create_subscription_row refuses (make plan) db)

-- `CreateSubscription`, with the next UUID and the time
unfoldable pub create_subscription :
    Refusal
    → String
    → Time
    → String
    → String
    → String
    → BillingDb
    → BillingResult Subscription × BillingDb
create_subscription refuses uuid now user_id org_id plan_id db =
    subscribed refuses (new_subscription uuid now user_id org_id plan_id) db
      (get_plan refuses plan_id db)

abbrev pub cancel : Time → Subscription → Subscription
cancel now sub = record sub { status = canceled; canceled_at = some now }

abbrev pub ended :
    Refusal
    → Time
    → BillingDb
    → BillingResult (Option Subscription)
    → BillingResult Subscription × BillingDb
ended refuses now db (bad e) = (bad e, db)
ended refuses now db (good none) = (bad subscription_not_found, db)
ended refuses now db (good (some sub)) =
    stored (cancel now sub) db (update_subscription refuses (cancel now sub) db)

-- `CancelSubscription`
unfoldable pub cancel_subscription :
    Refusal → Time → String → BillingDb → BillingResult Subscription × BillingDb
cancel_subscription refuses now id db = ended refuses now db (get_subscription refuses id db)
