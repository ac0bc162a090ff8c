-- ===== src/Guard/Fraud.antt =====
-- internal/fraud: the engine and its two rules. A rule reads the clock, and may answer with an
-- error; the velocity rule keeps its history.
pub mod Velocity
pub mod Risk
use fintech_ecosystem.Base.{
  ℕ, ◌+◌, ◌-◌, String, Bool, true, false, not, ◌||◌, Option, none, some, List, [], ◌∷◌, ◌++◌,
  length, select, ltb, str_eq, if◌then◌else◌,
}
use fintech_ecosystem.Base.Int.{ℤ, ltb_ℤ}

pub record Transaction : Type 0 where
  pub id : String
  pub amount : ℤ
  pub currency : String
  pub user_id : String

pub record RuleResult : Type 0 where
  pub rule_name : String
  pub passed : Bool

-- What `rule.Check` returns.
pub data Checked : Type 0 where
  result : RuleResult → Checked
  errored : String → Checked

pub record Outcome : Type 0 where
  pub name : String
  pub checked : Checked

abbrev pub result_of : Outcome → RuleResult
result_of (o) = elim o.checked [
  | result r ↦ r
  | errored e ↦ record { rule_name = o.name; passed = false }
]

abbrev pub fails : Checked → Bool
fails (result r) = not r.passed
fails (errored e) = false

-- The loop of `Engine.Check`, over what the rules answer in turn.
unfoldable pub check_all : List Outcome → Bool → List RuleResult × Bool
check_all [] risky = ([], risky)
check_all (o ∷ os) risky =
    let (rs, risky') = check_all os (risky || fails o.checked) in (result_of o ∷ rs, risky')

-- `AmountRule.Check`
unfoldable pub check_amount : ℤ → Transaction → RuleResult
check_amount limit tx = record { rule_name = "AmountRule"; passed = not (ltb_ℤ limit tx.amount) }

pub record VelocityRule : Type 0 where
  pub window : ℕ
  pub threshold : ℕ
  -- the map `history`, by its values
  pub history : String → List ℕ

-- `append(r.history[tx.UserID], now)` and the loop that keeps what is fresh.
unfoldable pub fresh : ℕ → ℕ → List ℕ → List ℕ
fresh window now times = select (λ t. ltb (now - t) window) (times ++ now ∷ [])

abbrev pub put : String → List ℕ → (String → List ℕ) → String → List ℕ
put k v m j = if str_eq k j then v else m j

-- `VelocityRule.Check`
unfoldable pub check_velocity : VelocityRule → ℕ → Transaction → RuleResult × VelocityRule
unfolding fresh
check_velocity r now tx =
    let times = fresh r.window now (r.history tx.user_id) in
    (
      record { rule_name = "VelocityRule"; passed = not (ltb r.threshold (length times)) },
      record r { history = put tx.user_id times r.history },
    )
