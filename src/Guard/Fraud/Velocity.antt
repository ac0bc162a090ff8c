-- ===== src/Guard/Fraud/Velocity.antt =====
-- What the fraud rules promise.
use fintech_ecosystem.Base.{
  ℕ, ◌-◌, ◌≤◌, String, ◌≡◌, refl, sym, ap, ◌∙◌, ◌↔◌, inl, inr, Bool, true, false, not, List, [],
  ◌∷◌, ◌++◌, length, select, ltb, str_eq, eq_iff, if◌then◌else◌, Bool-cases, arith,
}
use mathlib.Core.List.{append-nil, append_assoc}
use fintech_ecosystem.Guard.Fraud.{Transaction, VelocityRule, fresh, check_velocity}

-- Transactions of any users, at their times.
pub run : VelocityRule → List (ℕ × Transaction) → VelocityRule
run r [] = r
run r ((now, tx) ∷ calls) = run (check_velocity r now tx).1 calls

-- The times of one user's transactions.
pub times_of : String → List (ℕ × Transaction) → List ℕ
times_of user [] = []
times_of user ((now, tx) ∷ calls) =
    let rest = times_of user calls in if str_eq tx.user_id user then now ∷ rest else rest

-- The times that are less than a window old.
abbrev pub recent : ℕ → ℕ → List ℕ → List ℕ
recent window now = select (λ t. ltb (now - t) window)

select-append : (p : ℕ → Bool) (xs ys : List ℕ) → select p (xs ++ ys) ≡ select p xs ++ select p ys
select-append p [] ys = refl
select-append p (x ∷ xs) ys = ground (arith, select-append p xs ys)

-- What was dropped as too old stays too old.
recent-recent : (w a b : ℕ) (ts : List ℕ) → a ≤ b → recent w b (recent w a ts) ≡ recent w b ts
recent-recent w a b [] h = refl
recent-recent w a b (t ∷ ts) h = ground (arith, recent-recent w a b ts h)

-- The calls come in the order of their times, from `t` on.
abbrev pub InOrder : ℕ → List (ℕ × Transaction) → Type 0
InOrder t [] = Unit
InOrder t ((now, tx) ∷ calls) = (t ≤ now) × InOrder now calls

unfoldable pub latest : ℕ → List (ℕ × Transaction) → ℕ
latest t [] = t
latest t ((now, tx) ∷ calls) = latest now calls

-- From a time on, the kept history of a user has the same recent times as the full one.
abbrev Keeps : VelocityRule → String → ℕ → List ℕ → Type 0
Keeps r user t times =
    (now : ℕ) → t ≤ now → recent r.window now (r.history user) ≡ recent r.window now times

module _ (r : VelocityRule) (user : String) (t now : ℕ) (tx : Transaction) (times : List ℕ) where
  Keeps-own :
      t ≤ now
      → str_eq tx.user_id user ≡ true
      → Keeps r user t times
      → Keeps (check_velocity r now tx).1 user now (times ++ now ∷ [])
  unfolding check_velocity
  Keeps-own order own keeps later h =
      rw (own, (eq_iff tx.user_id user).0 own)
        (recent-recent r.window now later (r.history user ++ now ∷ []) h
          ∙ select-append (λ a. ltb (later - a) r.window) (r.history user) (now ∷ [])
          ∙ ap (λ (xs : List ℕ). xs ++ recent r.window later (now ∷ [])) (keeps later (omega arith))
          ∙ sym (select-append (λ a. ltb (later - a) r.window) times (now ∷ [])))

  Keeps-other :
      t ≤ now
      → str_eq tx.user_id user ≡ false
      → Keeps r user t times
      → Keeps (check_velocity r now tx).1 user now times
  unfolding check_velocity
  Keeps-other order other keeps later h = rw other (keeps later (omega arith))

run-Keeps :
    (r : VelocityRule) (user : String) (t : ℕ) (calls : List (ℕ × Transaction)) (times : List ℕ)
    → InOrder t calls
    → Keeps r user t times
    → Keeps (run r calls) user (latest t calls) (times ++ times_of user calls)
unfolding run times_of latest
run-Keeps r user t [] times order keeps = rw append-nil keeps
run-Keeps r user t ((now, tx) ∷ calls) times order keeps =
    elim (Bool-cases (str_eq tx.user_id user)) [
      | inl own ↦
          rw (own, ← append_assoc times (now ∷ []) (times_of user calls))
            (run-Keeps (check_velocity r now tx).1 user now calls (times ++ now ∷ []) order.1
              (Keeps-own r user t now tx times order.0 own keeps))
      | inr other ↦ rw other (
          run-Keeps (check_velocity r now tx).1 user now calls times order.1
            (Keeps-other r user t now tx times order.0 other keeps))
    ]

run_settings :
    (r : VelocityRule) (calls : List (ℕ × Transaction))
    → ((run r calls).window ≡ r.window) × ((run r calls).threshold ≡ r.threshold)
unfolding run check_velocity
run_settings r [] = (refl, refl)
run_settings r ((now, tx) ∷ calls) = run_settings (check_velocity r now tx).1 calls

-- The velocity rule counts exactly: on a new rule, after any transactions of any users in the order
-- of their times, it passes a transaction exactly when its user has at most `threshold`
-- transactions, this one included, that are less than a window old.
pub check_velocity_iff :
    (r : VelocityRule) (calls : List (ℕ × Transaction)) (now : ℕ) (tx : Transaction)
    → ((user : String) → r.history user ≡ [])
    → InOrder 0 calls
    → latest 0 calls ≤ now
    → ((check_velocity (run r calls) now tx).0.passed ≡ true)
      ↔ (length (recent r.window now (times_of tx.user_id calls ++ now ∷ [])) ≤ r.threshold)
unfolding check_velocity
check_velocity_iff r calls now tx empty order late =
    let user = tx.user_id in
    let (window, threshold) = run_settings r calls in
    let keeps = run-Keeps r user 0 calls [] order (λ later h. rw (empty user)) now late in
    let counted : fresh (run r calls).window now ((run r calls).history user)
        ≡ recent r.window now (times_of user calls ++ now ∷ []) =
      same_recent (run r calls) now user (times_of user calls) keeps
      ∙ ap (λ (w : ℕ). recent w now (times_of user calls ++ now ∷ [])) window in
    rw (counted, threshold)
      (not_ltb (length (recent r.window now (times_of user calls ++ now ∷ []))) r.threshold)
  where
    not_ltb : (a b : ℕ) → (not (ltb b a) ≡ true) ↔ (a ≤ b)
    not_ltb a b = ground arith

    same_recent :
        (r' : VelocityRule) (now : ℕ) (user : String) (times : List ℕ)
        → recent r'.window now (r'.history user) ≡ recent r'.window now times
        → fresh r'.window now (r'.history user) ≡ recent r'.window now (times ++ now ∷ [])
    same_recent r' now user times same =
        select-append (λ t. ltb (now - t) r'.window) (r'.history user) (now ∷ [])
        ∙ ap (λ (xs : List ℕ). xs ++ recent r'.window now (now ∷ [])) same
        ∙ sym (select-append (λ t. ltb (now - t) r'.window) times (now ∷ []))
