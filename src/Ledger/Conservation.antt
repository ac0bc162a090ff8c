-- ===== src/Ledger/Conservation.antt =====
-- The balance check of `RecordTransaction` (wrap-around included), and what it does to balances.
use fintech_ecosystem.Base.{
  ℕ, ◌+◌, ◌-◌, ◌%◌, ◌<◌, String, ◌≡◌, refl, sym, ap, ◌∙◌, ◌↔◌, inl, inr, true, List, [], ◌∷◌, ◌++◌,
  map, str_eq, if◌then◌else◌, Bool-cases, arith,
}
use fintech_ecosystem.Base.Int.{
  ℤ, pos, negsuc, pos_part, neg_part, ◌+ℤ◌, int_laws, +ℤ_assoc, IsInt64, signed64, wrap64, add64,
  wrap64_of_IsInt64, wrap64-IsInt64, is_zero,
}
use fintech_ecosystem.Ledger.Model.{Entry, EntryRequest}
use fintech_ecosystem.Ledger.Store.{ok, err, not_balanced, balance}
use fintech_ecosystem.Ledger.Service.{entry_of, sum64, check_balanced}

-- The bit pattern of an integer in 64 bits.
abbrev residue : ℤ → ℕ
residue a =
    (pos_part a + 18446744073709551616 - neg_part a % 18446744073709551616) % 18446744073709551616

residue-signed64 : (r : ℕ) → r < 18446744073709551616 → residue (signed64 r) ≡ r
residue-signed64 r h = ground arith

residue-add : (a b : ℤ) → residue (a +ℤ b) ≡ (residue a + residue b) % 18446744073709551616
residue-add a b = omega int_laws

wrap64-eq : (a : ℤ) → wrap64 a ≡ signed64 (residue a)
unfolding wrap64
wrap64-eq a = refl

residue-wrap64 : (a : ℤ) → residue (wrap64 a) ≡ residue a
residue-wrap64 a = rw wrap64-eq (residue-signed64 (residue a) (omega arith))

-- An inner wrap-around is absorbed by the outer one.
pub wrap64_absorb : (a b : ℤ) → wrap64 (wrap64 a +ℤ b) ≡ wrap64 (a +ℤ b)
wrap64_absorb a b = rw (
  wrap64-eq (wrap64 a +ℤ b),
  wrap64-eq (a +ℤ b),
  residue-add (wrap64 a) b,
  residue-add a b,
  residue-wrap64 a,
)

-- The exact sum of the amounts.
unfoldable pub sum : List EntryRequest → ℤ
sum [] = pos 0
sum (e ∷ es) = e.amount +ℤ sum es

sum64-eq : (acc : ℤ) (es : List EntryRequest) → IsInt64 acc → sum64 acc es ≡ wrap64 (acc +ℤ sum es)
unfolding sum64 sum add64
sum64-eq acc [] h =
    let same : acc +ℤ pos 0 ≡ acc = omega int_laws in rw same (sym (wrap64_of_IsInt64 acc h))
sum64-eq acc (e ∷ es) h =
    sum64-eq (add64 acc e.amount) es (wrap64-IsInt64 (acc +ℤ e.amount))
    ∙ wrap64_absorb (acc +ℤ e.amount) (sum es)
    ∙ ap wrap64 (+ℤ_assoc acc e.amount (sum es))

-- The size of the integer is a multiple of 2 ^ 64.
abbrev pub IsMultiple : ℤ → Type 0
IsMultiple a = (pos_part a % 18446744073709551616 ≡ 0) × (neg_part a % 18446744073709551616 ≡ 0)

signed64_zero : (a : ℤ) → (is_zero (signed64 (residue a)) ≡ true) ↔ IsMultiple a
signed64_zero (pos n) = ground arith
signed64_zero (negsuc n) = ground arith

pub check_balanced-eq :
    (es : List EntryRequest)
    → check_balanced es
      ≡ (if is_zero (signed64 (residue (sum es))) then ok tt else err not_balanced)
unfolding check_balanced
check_balanced-eq es =
    let from_zero : pos 0 +ℤ sum es ≡ sum es = omega int_laws in
    rw (sum64-eq (pos 0) es (omega arith), from_zero, wrap64-eq)

-- The balance check passes exactly when the exact sum of the amounts is a multiple of 2 ^ 64: the
-- loop sums on int64, which wraps.
pub check_balanced_iff :
    (es : List EntryRequest) → (check_balanced es ≡ ok tt) ↔ IsMultiple (sum es)
check_balanced_iff es = rw check_balanced-eq (passes (sum es))
  where
    passes :
        (a : ℤ)
        → ((if is_zero (signed64 (residue a)) then ok tt else err not_balanced) ≡ ok tt)
          ↔ IsMultiple a
    passes (pos n) = ground arith
    passes (negsuc n) = ground arith

-- Without overflow the check is exact: a request whose exact sum is an int64 passes only if the
-- amounts sum to zero.
pub check_balanced_exact :
    (es : List EntryRequest) → IsInt64 (sum es) → check_balanced es ≡ ok tt → sum es ≡ pos 0
check_balanced_exact es fits h = exact (sum es) fits ((check_balanced_iff es).0 h)
  where
    exact : (a : ℤ) → IsInt64 a → IsMultiple a → a ≡ pos 0
    exact (pos n) small zero_mod = ground arith
    exact (negsuc n) small zero_mod = ground arith

-- What a request adds to an account.
unfoldable pub requested : String → List EntryRequest → ℤ
requested id [] = pos 0
requested id (e ∷ es) =
    let rest = requested id es in if str_eq e.account_id id then e.amount +ℤ rest else rest

pub balance-append :
    (id tx : String) (es : List Entry) (rs : List EntryRequest)
    → balance id (es ++ map (entry_of tx) rs) ≡ balance id es +ℤ requested id rs
unfolding balance requested
balance-append id tx [] [] = omega int_laws
balance-append id tx [] (r ∷ rs) = elim (Bool-cases (str_eq r.account_id id)) [
  | inl this ↦ rw this (rw (balance-append id tx [] rs) (omega int_laws))
  | inr other ↦ rw other (balance-append id tx [] rs)
]
balance-append id tx (e ∷ es) rs = elim (Bool-cases (str_eq e.account_id id)) [
  | inl this ↦ rw this (rw (balance-append id tx es rs) (omega int_laws))
  | inr other ↦ rw other (balance-append id tx es rs)
]

-- The exact sum of all entries of the ledger.
unfoldable pub total : List Entry → ℤ
total [] = pos 0
total (e ∷ es) = e.amount +ℤ total es

pub total-append :
    (tx : String) (es : List Entry) (rs : List EntryRequest)
    → total (es ++ map (entry_of tx) rs) ≡ total es +ℤ sum rs
unfolding total sum
total-append tx [] [] = omega int_laws
total-append tx [] (r ∷ rs) = rw (total-append tx [] rs) (omega int_laws)
total-append tx (e ∷ es) rs = rw (total-append tx es rs) (omega int_laws)

pub IsMultiple-add : (a b : ℤ) → IsMultiple a → IsMultiple b → IsMultiple (a +ℤ b)
unfolding ◌+ℤ◌
IsMultiple-add (pos a) (pos b) h k = ground arith
IsMultiple-add (pos a) (negsuc b) h k = ground arith
IsMultiple-add (negsuc a) (pos b) h k = ground arith
IsMultiple-add (negsuc a) (negsuc b) h k = ground arith
