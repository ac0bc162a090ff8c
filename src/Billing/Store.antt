-- ===== src/Billing/Store.antt =====
-- internal/billing/domain/models.go and internal/billing/infrastructure/sql_repository.go. The
-- columns `created_at` and `updated_at`, which nothing reads, are not modelled, nor are invoices,
-- which nothing makes.
use fintech_ecosystem.Base.{
  String, ◌&&◌, Bool, true, false, Option, none, List, [], ◌∷◌, ◌++◌, map, find, select, update,
  str_eq,
}
use fintech_ecosystem.Base.Int.{ℤ}
use fintech_ecosystem.Billing.Calendar.{Time, not_after}

pub data SubscriptionStatus : Type 0 where
  active canceled past_due incomplete : SubscriptionStatus

pub record Plan : Type 0 where
  pub id : String
  pub name : String
  pub amount : ℤ
  pub currency : String
  pub interval : String

pub record Subscription : Type 0 where
  pub id : String
  pub user_id : String
  pub org_id : String
  pub plan_id : String
  pub status : SubscriptionStatus
  pub current_period_start : Time
  pub current_period_end : Time
  pub canceled_at : Option Time

pub record BillingDb : Type 0 where
  pub plans : List Plan
  pub subscriptions : List Subscription

pub data BillingStatement : Type 0 where
  insert_subscription read_subscription write_subscription list_due read_plan : BillingStatement

pub data BillingError : Type 0 where
  plan_not_found subscription_not_found database payment : BillingError

pub data BillingResult (A : Type 0) : Type 0 where
  good : A → BillingResult A
  bad : BillingError → BillingResult A

-- Which statements the database refuses.
abbrev pub Refusal : Type 0
Refusal = BillingDb → BillingStatement → Bool

abbrev pub unless : {A : Type 0} → Bool → A → BillingResult A
unless true a = bad database
unless false a = good a

-- `CreateSubscription`; the columns of the statement leave out `canceled_at`.
unfoldable pub create_subscription_row :
    Refusal → Subscription → BillingDb → BillingResult BillingDb
create_subscription_row refuses sub db =
    unless (refuses db insert_subscription)
      (record db { subscriptions = db.subscriptions ++ record sub { canceled_at = none } ∷ [] })

abbrev pub is_subscription : String → Subscription → Bool
is_subscription id sub = str_eq sub.id id

-- `GetSubscription`
unfoldable pub get_subscription : Refusal → String → BillingDb → BillingResult (Option Subscription)
get_subscription refuses id db =
    unless (refuses db read_subscription) (find (is_subscription id) db.subscriptions)

-- The columns that `UpdateSubscription` sets.
abbrev pub rewrite : Subscription → Subscription → Subscription
rewrite sub row = record row {
  status = sub.status;
  current_period_start = sub.current_period_start;
  current_period_end = sub.current_period_end;
  canceled_at = sub.canceled_at;
}

-- `UpdateSubscription`, which does not look at how many rows it changes.
unfoldable pub update_subscription : Refusal → Subscription → BillingDb → BillingResult BillingDb
update_subscription refuses sub db =
    unless (refuses db write_subscription)
      (record db { subscriptions = update (is_subscription sub.id) (rewrite sub) db.subscriptions })

abbrev pub is_active : SubscriptionStatus → Bool
is_active active = true
is_active _ = false

-- `status = 'active' AND current_period_end <= now`
abbrev pub is_due : Time → Subscription → Bool
is_due now sub = is_active sub.status && not_after sub.current_period_end now

-- `ListDueSubscriptions`, which does not read `canceled_at`. The query has no ORDER BY, so the order
-- is up to the database; here it is the order of the table.
abbrev pub scan_due : Subscription → Subscription
scan_due sub = record sub { canceled_at = none }

unfoldable pub list_due_subscriptions :
    Refusal → Time → BillingDb → BillingResult (List Subscription)
list_due_subscriptions refuses now db =
    unless (refuses db list_due) (map scan_due (select (is_due now) db.subscriptions))

abbrev pub is_plan : String → Plan → Bool
is_plan id p = str_eq p.id id

-- `GetPlan`
unfoldable pub get_plan : Refusal → String → BillingDb → BillingResult (Option Plan)
get_plan refuses id db = unless (refuses db read_plan) (find (is_plan id) db.plans)
