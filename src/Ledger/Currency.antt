-- ===== src/Ledger/Currency.antt =====
-- The currency check of `RecordTransaction`.
use fintech_ecosystem.Base.{
  String, ◌≡◌, refl, ap, ◌∙◌, ◌⊎◌, inl, inr, Option, none, some, List, [], ◌∷◌, All, eq_iff,
  Option-cases, arith,
}
use fintech_ecosystem.Ledger.Model.{Account, EntryRequest, TransactionRequest}
use fintech_ecosystem.Ledger.Store.{Db, Env, Error, ok, get_account}
use fintech_ecosystem.Ledger.Service.{agree, check_currencies, LedgerService, record_transaction}
use fintech_ecosystem.Ledger.Replay.{Result-cases, Effect, record_transaction-Effect}

-- The repository finds the account of the entry, in the given currency or in none.
abbrev pub Names : Env → Db → String → EntryRequest → Type 0
Names env db c e =
    (acc : Account) × (get_account env e.account_id db ≡ ok (some acc))
    × ((acc.currency ≡ "") ⊎ (acc.currency ≡ c))

-- What the loop knows once it has ended without error, if it began with `common`.
abbrev Agreed : Env → Db → String → String → List EntryRequest → Type 0
Agreed env db common c es = ((common ≡ "") ⊎ (common ≡ c)) × All (Names env db c) es

step :
    (env : Env) (db : Db) (common : String) (e : EntryRequest) (es : List EntryRequest)
    → check_currencies env db common (e ∷ es) ≡ ok tt
    → (acc : Account) × (next : String) × (get_account env e.account_id db ≡ ok (some acc))
      × (agree common e.account_id acc ≡ ok next)
      × (check_currencies env db next es ≡ ok tt)
unfolding check_currencies
step env db common e es h = elim (Result-cases (get_account env e.account_id db)) [
  | inr (x, failed) ↦ absurd (ground arith)
  | inl (found, p) ↦ elim (Option-cases found) [
    | inl missing ↦ absurd (ground arith)
    | inr (acc, q) ↦ elim (Result-cases (agree common e.account_id acc)) [
      | inr (x, failed) ↦ absurd (ground arith)
      | inl (next, r) ↦ (acc, next, p ∙ ap ok q, r, ground arith)
    ]
  ]
]

agree-cases :
    (common id : String) (acc : Account) {next : String}
    → agree common id acc ≡ ok next
    → ((common ≡ "") × (next ≡ acc.currency)) ⊎ ((common ≡ acc.currency) × (next ≡ common))
unfolding agree
agree-cases common id acc h = ground (arith, eq_iff common "", eq_iff common acc.currency)

check_currencies-Agreed :
    (env : Env) (db : Db) (common : String) (es : List EntryRequest)
    → check_currencies env db common es ≡ ok tt
    → (c : String) × Agreed env db common c es
check_currencies-Agreed env db common [] h = (common, (inr refl, tt))
check_currencies-Agreed env db common (e ∷ es) h =
    let (acc, next, found, agreed, rest) = step env db common e es h in
    let (c, (same, names)) = check_currencies-Agreed env db next es rest in
    elim (agree-cases common e.account_id acc agreed) [
      | inl (first, is_next) ↦ (c, (inl first, ((acc, found, ground arith), names)))
      | inr (kept, is_next) ↦ (c, (ground arith, ((acc, found, ground arith), names)))
    ]

-- A call without error found the account of every entry, and there is one currency that each of
-- these accounts has, unless its currency is empty.
pub record_transaction_one_currency :
    (env : Env) (req : TransactionRequest) (zone_id mode : String) (s : LedgerService)
    → (record_transaction env req zone_id mode s).0 ≡ none
    → (c : String) × All (Names env s.db c) req.entries
record_transaction_one_currency env req zone_id mode s done =
    let checked =
      passed (record_transaction env req zone_id mode s)
        (record_transaction-Effect env req zone_id mode s) done in
    let (c, (_, names)) = check_currencies-Agreed env s.db "" req.entries checked in (c, names)
  where
    passed :
        (r : Option Error × LedgerService)
        → Effect env req zone_id mode s r
        → r.0 ≡ none
        → check_currencies env s.db "" req.entries ≡ ok tt
    passed (some e, s') effect bad = cc
    passed (none, s') effect _ = effect.1
