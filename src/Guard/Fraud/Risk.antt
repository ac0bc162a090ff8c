-- ===== src/Guard/Fraud/Risk.antt =====
-- When the engine of internal/fraud/engine.go marks a transaction as risky.
use fintech_ecosystem.Base.{◌≡◌, refl, Bool, false, ◌||◌, List, [], ◌∷◌, length, arith}
use fintech_ecosystem.Guard.Fraud.{Outcome, fails, check_all}

-- Some rule answered with a result that is not passed; an error is no such answer.
abbrev pub any_fails : List Outcome → Bool
any_fails [] = false
any_fails (o ∷ os) = fails o.checked || any_fails os

check_all-risky :
    (os : List Outcome) (risky : Bool) → (check_all os risky).1 ≡ (risky || any_fails os)
unfolding check_all
check_all-risky [] risky = ground arith
check_all-risky (o ∷ os) risky = ground (arith, check_all-risky os (risky || fails o.checked))

check_all-length : (os : List Outcome) (risky : Bool) → length (check_all os risky).0 ≡ length os
unfolding check_all
check_all-length [] risky = refl
check_all-length (o ∷ os) risky = ground (arith, check_all-length os (risky || fails o.checked))

-- The engine answers one result for each rule, and marks the transaction as risky exactly when some
-- rule answered with a result that is not passed; a rule that ends in an error marks nothing.
pub check_all_lem :
    (os : List Outcome)
    → (length (check_all os false).0 ≡ length os) × ((check_all os false).1 ≡ any_fails os)
check_all_lem os = (check_all-length os false, check_all-risky os false)
