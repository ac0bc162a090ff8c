-- ===== src/Tests/Guard.antt =====
-- The theorems on limits, fraud rules and policies at concrete inputs.
use fintech_ecosystem.Base.{
  ℕ, ◌-◌, ◌≤◌, String, ◌≡◌, refl, ◌↔◌, ◌++◌, true, List, [], ◌∷◌, length, arith,
}
use fintech_ecosystem.Base.Int.{pos}
use fintech_ecosystem.Guard.Limiter.{Config, Member}
use fintech_ecosystem.Guard.Limiter.Window.{run, no_history, in_span, run-in_span}
use fintech_ecosystem.Guard.Fraud.{
  Outcome, errored, result, Transaction, VelocityRule, check_velocity,
}
use fintech_ecosystem.Guard.Fraud.Velocity.{
  run as transact, times_of, recent, latest, check_velocity_iff,
}
use fintech_ecosystem.Guard.Policy.{json_check, check_roles}
use fintech_ecosystem.Guard.Policy.Rules.{matrix, json_check_agrees}

abbrev config : Config
config = record { limit = 2; window = 1000000000; burst = 2 }

abbrev calls : List (ℕ × ℕ)
calls =
    (2000000000, 2000000001)
    ∷ (2100000000, 2100000001)
    ∷ (2200000000, 2200000001)
    ∷ (3500000000, 3500000001)
    ∷ []

run-in_span_example :
    let h = run config calls no_history in
    length (in_span (config.window - 1000000) h.last h.log) ≤ 2
run-in_span_example = run-in_span config calls (ground arith) (ground arith)

abbrev members : List Member
members = record { nano = 1999000000; index = 0; score = 1999 } ∷ []

abbrev velocity : VelocityRule
velocity = record { window = 60; threshold = 2; history = λ _. [] }

abbrev spend : String → Transaction
spend user = record { id = "t"; amount = pos 9; currency = "USD"; user_id = user }

abbrev spent : List (ℕ × Transaction)
spent = (10, spend "u1") ∷ (20, spend "u2") ∷ (30, spend "u1") ∷ []

check_velocity_iff_example :
    ((check_velocity (transact velocity spent) 75 (spend "u1")).0.passed ≡ true)
    ↔ (length (recent 60 75 (times_of "u1" spent ++ 75 ∷ [])) ≤ 2)
unfolding latest
check_velocity_iff_example =
    check_velocity_iff velocity spent 75 (spend "u1") (λ _. refl) (ground arith) (ground arith)

json_check_agrees_example :
    (json_check matrix ("viewer" ∷ "finance" ∷ []) "refund.create").allowed
    ≡ (check_roles ("viewer" ∷ "finance" ∷ []) "refund.create").allowed
json_check_agrees_example = json_check_agrees ("viewer" ∷ "finance" ∷ []) "refund.create"

abbrev answers : List Outcome
answers =
    record { name = "AmountRule"; checked = errored "no rates" }
    ∷ record {
      name = "VelocityRule";
      checked = result (record { rule_name = "VelocityRule"; passed = true });
    }
    ∷ []
