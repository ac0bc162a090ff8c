-- ===== src/Tests/Billing.antt =====
-- The theorems on billing at concrete inputs: a monthly plan and a subscription that is due.
use fintech_ecosystem.Base.{ℕ, ◌≡◌, refl, true, false, none, some, [], ◌∷◌, find, arith}
use fintech_ecosystem.Base.Int.{pos}
use fintech_ecosystem.Billing.Calendar.{Time, IsDate, not_after, month_days}
use fintech_ecosystem.Billing.Store.{
  Plan, Subscription, active, past_due, is_active, good, is_subscription, scan_due,
  get_subscription, update_subscription, list_due_subscriptions,
}
use fintech_ecosystem.Billing.Service.{cancel, cancel_subscription}
use fintech_ecosystem.Billing.Worker.{
  BillingEnv, Billing, charge_of, process_subscription, process_all, run_process,
}
use fintech_ecosystem.Billing.Renewal.{
  CanRenew, rows_of, inactive_untouched, process_renews, cancel_lost,
}
use fintech_ecosystem.Billing.Charges.{Serves, run_charges}

abbrev at : ℕ → ℕ → Time
at month day = record { year = 2025; month = month; day = day; nanos = 0 }

abbrev plan : Plan
plan = record { id = "p1"; name = "Pro"; amount = pos 900; currency = "USD"; interval = "month" }

abbrev sub : Subscription
sub = record {
  id = "s1";
  user_id = "ann";
  org_id = "o1";
  plan_id = "p1";
  status = active;
  current_period_start = at 1 1;
  current_period_end = at 1 31;
  canceled_at = none;
}

abbrev billing : Billing
billing = record { db = record { plans = plan ∷ []; subscriptions = sub ∷ [] }; charges = [] }

abbrev billing_env : BillingEnv
billing_env = record { refuses = λ _ _. false; takes = λ _ _. true }

abbrev late : Subscription
late = record sub { status = past_due }

abbrev late_billing : Billing
late_billing = record billing { db = record { plans = plan ∷ []; subscriptions = late ∷ [] } }

january : IsDate (at 1 31)
unfolding month_days
january = record {
  some_month = ground arith;
  year_end = ground arith;
  some_day = ground arith;
  month_end = ground arith;
}

can_renew : CanRenew billing_env (scan_due sub) plan billing
can_renew = record { reads = refl; writes = refl; planned = refl; taken = refl }

process_renews_example :
    (b' : Billing) × (row' : Subscription) × (process_subscription billing_env sub billing
      ≡ some (none, b'))
    × (b'.charges ≡ charge_of sub plan ∷ [])
    × (find (is_subscription "s1") b'.db.subscriptions ≡ some row')
    × (is_active row'.status ≡ true)
    × (row'.current_period_start ≡ at 1 31)
    × IsDate row'.current_period_end
    × (not_after row'.current_period_end row'.current_period_start ≡ false)
process_renews_example = process_renews billing_env sub plan billing can_renew refl january

inactive_untouched_example : rows_of "s1" late_billing.db ≡ late ∷ []
unfolding run_process list_due_subscriptions process_all
inactive_untouched_example =
    inactive_untouched billing_env (at 3 1) "s1" late_billing late_billing (refl, tt) refl

cancel_lost_example :
    let db1 = (cancel_subscription billing_env.refuses (at 2 1) "s1" billing.db).1 in
    ((cancel_subscription billing_env.refuses (at 2 1) "s1" billing.db).0
      ≡ good (cancel (at 2 1) sub))
    × (b' : Billing) × (row' : Subscription) × (process_subscription billing_env sub
          (record billing { db = db1 })
        ≡ some (none, b'))
    × (b'.charges ≡ charge_of sub plan ∷ [])
    × (find (is_subscription "s1") b'.db.subscriptions ≡ some row')
    × (is_active row'.status ≡ true)
    × (row'.canceled_at ≡ none)
unfolding cancel_subscription get_subscription update_subscription
cancel_lost_example =
    cancel_lost billing_env (at 2 1) sub plan billing refl refl refl
      (record { reads = refl; writes = refl; planned = refl; taken = refl })

serves : Serves billing_env
serves = (λ db st. refl, λ taken charge. refl)

run_charges_example :
    (b' : Billing) × (run_process billing_env (at 3 1) billing ≡ some b')
    × (b'.charges ≡ charge_of sub plan ∷ [])
unfolding not_after
run_charges_example = run_charges billing_env (at 3 1) billing serves ((plan, refl), tt)
