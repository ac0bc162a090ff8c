-- ===== src/Billing/Charges.antt =====
-- What a run of the worker charges (internal/billing/service/worker.go).
use fintech_ecosystem.Base.{
  ◌≡◌, refl, sym, true, false, none, some, List, [], ◌∷◌, ◌++◌, map, find, select, update, All,
  arith,
}
use mathlib.Core.List.{append_assoc, append-nil}
use fintech_ecosystem.Billing.Calendar.{Time}
use fintech_ecosystem.Billing.Store.{
  Plan, Subscription, BillingDb, BillingStatement, read_plan, write_subscription, list_due, is_plan,
  is_due, scan_due, is_subscription, rewrite, get_plan, update_subscription, list_due_subscriptions,
}
use fintech_ecosystem.Billing.Worker.{
  Charge, BillingEnv, Billing, charge_of, renew, process_subscription, process_next, process_all,
  run_process,
}

-- The charges of subscriptions, in order, each by its plan.
abbrev pub charges_of : List Plan → List Subscription → List Charge
charges_of plans [] = []
charges_of plans (sub ∷ subs) = elim (find (is_plan sub.plan_id) plans) [
  | none ↦ charges_of plans subs
  | some plan ↦ charge_of sub plan ∷ charges_of plans subs
]

-- Every subscription has its plan, as the foreign key of the table says.
abbrev pub HavePlans : List Plan → List Subscription → Type 0
HavePlans plans = All (λ sub. (plan : Plan) × (find (is_plan sub.plan_id) plans ≡ some plan))

-- The database answers everything, and the payment service takes every charge.
abbrev pub Serves : BillingEnv → Type 0
Serves env =
    ((db : BillingDb) (st : BillingStatement) → env.refuses db st ≡ false)
    × ((taken : List Charge) (charge : Charge) → env.takes taken charge ≡ true)

process_charges :
    (env : BillingEnv) (plans : List Plan) (subs : List Subscription) (b : Billing)
    → Serves env
    → b.db.plans ≡ plans
    → HavePlans plans subs
    → (b' : Billing) × (process_all env subs (some b) ≡ some b')
      × (b'.charges ≡ b.charges ++ charges_of plans subs)
unfolding process_all process_subscription get_plan update_subscription
process_charges env plans [] b serves same have = (b, refl, sym (append-nil b.charges))
process_charges env plans (sub ∷ subs) b serves same ((plan, found), have) =
    let here : find (is_plan sub.plan_id) b.db.plans ≡ some plan = rw same found in
    let next : Billing = record {
      db = record b.db {
        subscriptions =
            update (is_subscription sub.id) (rewrite (renew sub plan)) b.db.subscriptions;
      };
      charges = b.charges ++ charge_of sub plan ∷ [];
    } in
    let step : process_next env sub (some b) ≡ some next =
      rw
        (
          serves.0 b.db read_plan,
          here,
          serves.1 b.charges (charge_of sub plan),
          serves.0 b.db write_subscription,
        )
        refl in
    let (b', run, charges) = process_charges env plans subs next serves same have in
    let listed : charges_of plans (sub ∷ subs) ≡ charge_of sub plan ∷ charges_of plans subs =
      ground (arith, found) in
    (
      b',
      rw step run,
      rw (charges, listed)
          (append_assoc b.charges (charge_of sub plan ∷ []) (charges_of plans subs)),
    )

charges_of-scan :
    (plans : List Plan) (subs : List Subscription)
    → charges_of plans (map scan_due subs) ≡ charges_of plans subs
charges_of-scan plans [] = refl
charges_of-scan plans (sub ∷ subs) = ground (arith, charges_of-scan plans subs)

HavePlans-scan :
    (plans : List Plan) (subs : List Subscription)
    → HavePlans plans subs
    → HavePlans plans (map scan_due subs)
HavePlans-scan plans [] have = tt
HavePlans-scan plans (sub ∷ subs) (here, there) = (here, HavePlans-scan plans subs there)

-- A run charges what is due and nothing else: where the database answers, every due subscription
-- has its plan and the payments are taken, the run ends, and the charges that it adds are one for
-- each subscription that was due at its time, in their order.
pub run_charges :
    (env : BillingEnv) (now : Time) (b : Billing)
    → Serves env
    → HavePlans b.db.plans (select (is_due now) b.db.subscriptions)
    → (b' : Billing) × (run_process env now b ≡ some b')
      × (b'.charges ≡ b.charges ++ charges_of b.db.plans (select (is_due now) b.db.subscriptions))
unfolding run_process list_due_subscriptions
run_charges env now b serves have =
    let due = select (is_due now) b.db.subscriptions in
    let (b', run, charges) =
      process_charges env b.db.plans (map scan_due due) b serves refl
        (HavePlans-scan b.db.plans due have) in
    (b', rw (serves.0 b.db list_due) run, rw (← charges_of-scan b.db.plans due) charges)
