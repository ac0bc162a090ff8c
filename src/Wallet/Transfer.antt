-- ===== src/Wallet/Transfer.antt =====
-- What a wallet transfer does to balances, when it goes through and when its second half fails.
use fintech_ecosystem.Base.{zero, suc, String, ◌≡◌, refl, sym, ap, ◌∙◌, ◌≢◌, arith}
use fintech_ecosystem.Base.Int.{ℤ, pos, negsuc, ◌+ℤ◌, ◌-ℤ◌, int_laws, neg64}
use fintech_ecosystem.Ledger.Store.{Env, Error, balance}
use fintech_ecosystem.Ledger.Service.{LedgerService}
use fintech_ecosystem.Ledger.Conservation.{requested}
use fintech_ecosystem.Ledger.Grpc.{
  RecordTransactionResponse, Reply, reply, failed, panic, system_balancing, balanced_pair,
  serve_record,
}
use fintech_ecosystem.Ledger.Pair.{
  IsAmount, neg64-eq, neg64_parts, requested-pair_own, requested-pair_system, requested-pair_other,
  IsNew, serve_record_moves, serve_record_failed,
}
use fintech_ecosystem.Wallet.{
  TransferRequest, answer, refused, credit_failed, debit_request, credit_request, after_debit,
  answer_of, transfer,
}

-- The state between the two halves.
abbrev pub debited : Env → TransferRequest → LedgerService → LedgerService
debited env req s = (serve_record env (debit_request req) s).1

-- The two users are distinct accounts, and neither is the balancing account.
pub record AreUsers (req : TransferRequest) : Type 0 where
  pub distinct : req.from_user_id ≢ req.to_user_id
  pub from_user : req.from_user_id ≢ system_balancing
  pub to_user : req.to_user_id ≢ system_balancing

flip-IsAmount : (a : ℤ) → IsAmount a → IsAmount (pos 0 -ℤ a)
unfolding ◌-ℤ◌
flip-IsAmount (pos zero) h = ground arith
flip-IsAmount (pos (suc n)) h = ground arith
flip-IsAmount (negsuc n) h = ground arith

neg-IsAmount : (a : ℤ) → IsAmount a → IsAmount (neg64 a)
neg-IsAmount a h = rw (neg64-eq a h) (flip-IsAmount a h)

answered :
    (env : Env) (req : TransferRequest) (first : Reply RecordTransactionResponse × LedgerService)
    {res : RecordTransactionResponse}
    → (after_debit env req first).0 ≡ answer res
    → (d : RecordTransactionResponse) × (first.0 ≡ reply d)
      × ((serve_record env (credit_request req) first.1).0 ≡ reply res)
      × ((after_debit env req first).1 ≡ (serve_record env (credit_request req) first.1).1)
answered env req (reply d, s) h =
    (d, refl, credited (serve_record env (credit_request req) s).0 h, refl)
  where
    credited :
        (r : Reply RecordTransactionResponse) {res : RecordTransactionResponse}
        → answer_of credit_failed r ≡ answer res
        → r ≡ reply res
    credited (reply x) h = ground arith
    credited (failed e) h = cc
    credited panic h = cc
answered env req (failed e, s) h = cc
answered env req (panic, s) h = cc

broken :
    (env : Env) (req : TransferRequest) (first : Reply RecordTransactionResponse × LedgerService)
    {e : Error}
    → (after_debit env req first).0 ≡ refused (credit_failed e)
    → (d : RecordTransactionResponse) × (first.0 ≡ reply d)
      × ((after_debit env req first).1.db ≡ first.1.db)
broken env req (reply d, s) h = (
  d,
  refl,
  serve_record_failed env (credit_request req) s
      (why (serve_record env (credit_request req) s).0 h),
)
  where
    why :
        (r : Reply RecordTransactionResponse) {e : Error}
        → answer_of credit_failed r ≡ refused (credit_failed e)
        → r ≡ failed e
    why (reply x) h = cc
    why (failed x) h = cc
    why panic h = cc
broken env req (failed x, s) h = cc
broken env req (panic, s) h = cc

module _ (env : Env) (req : TransferRequest) (s : LedgerService) {res : RecordTransactionResponse}
    (new : IsNew (debit_request req) s) (new' : IsNew (credit_request req) (debited env req s))
    (done : (transfer env req s).0 ≡ answer res) where
  -- Both halves of a transfer that is answered, on any account.
  both_halves :
      (id : String)
      → balance id (transfer env req s).1.db.entries
        ≡ balance id s.db.entries
          +ℤ requested id (balanced_pair req.from_user_id (neg64 req.amount))
          +ℤ requested id (balanced_pair req.to_user_id req.amount)
  unfolding transfer
  both_halves id =
      let (d, debit_done, credit_done, final) =
        answered env req (serve_record env (debit_request req) s) done in
      rw final (
        serve_record_moves env (credit_request req) (debited env req s) id new' credit_done
        ∙ ap (λ (b : ℤ). b +ℤ requested id (balanced_pair req.to_user_id req.amount))
            (serve_record_moves env (debit_request req) s id new debit_done))

-- A transfer that is answered, between two distinct users and with new references, takes the
-- amount from the one and gives it to the other; the balancing account ends as it was.
pub transfer_moves :
    (env : Env) (req : TransferRequest) (s : LedgerService) {res : RecordTransactionResponse}
    → AreUsers req
    → IsAmount req.amount
    → IsNew (debit_request req) s
    → IsNew (credit_request req) (debited env req s)
    → (transfer env req s).0 ≡ answer res
    → let s' = (transfer env req s).1 in
      (balance req.from_user_id s'.db.entries ≡ balance req.from_user_id s.db.entries -ℤ req.amount)
      × (balance req.to_user_id s'.db.entries ≡ balance req.to_user_id s.db.entries +ℤ req.amount)
      × (balance system_balancing s'.db.entries ≡ balance system_balancing s.db.entries)
transfer_moves env req s users h new new' done =
    let a = req.amount in
    let halves = both_halves env req s new new' done in
    (
      halves req.from_user_id
          ∙ rw
              (
                requested-pair_own req.from_user_id (neg64 a) users.from_user,
                requested-pair_other req.to_user_id req.from_user_id a (λ e. users.distinct (sym e))
                    users.from_user,
              )
              (omega (int_laws, neg64_parts a h)),
      halves req.to_user_id
          ∙ rw
              (
                requested-pair_other req.from_user_id req.to_user_id (neg64 a) users.distinct
                    users.to_user,
                requested-pair_own req.to_user_id a users.to_user,
              )
              (omega int_laws),
      halves system_balancing
          ∙ rw
              (
                requested-pair_system req.from_user_id (neg64 a) users.from_user,
                requested-pair_system req.to_user_id a users.to_user,
              )
              (omega (int_laws, neg64_parts a h, neg64_parts (neg64 a) (neg-IsAmount a h))),
    )

-- A transfer is not atomic: if the credit fails after the debit, with a new reference, was
-- recorded, the amount has left the sender and the receiver has nothing of it.
pub transfer_credit_failed :
    (env : Env) (req : TransferRequest) (s : LedgerService) {e : Error}
    → AreUsers req
    → IsAmount req.amount
    → IsNew (debit_request req) s
    → (transfer env req s).0 ≡ refused (credit_failed e)
    → let s' = (transfer env req s).1 in
      (balance req.from_user_id s'.db.entries ≡ balance req.from_user_id s.db.entries -ℤ req.amount)
      × (balance req.to_user_id s'.db.entries ≡ balance req.to_user_id s.db.entries)
unfolding transfer
transfer_credit_failed env req s users h new bad =
    let a = req.amount in
    let (d, debit_done, final) = broken env req (serve_record env (debit_request req) s) bad in
    let moved = λ (id : String). serve_record_moves env (debit_request req) s id new debit_done in
    (
      rw final (
          moved req.from_user_id
          ∙ rw (requested-pair_own req.from_user_id (neg64 a) users.from_user)
              (omega (int_laws, neg64_parts a h))),
      rw final (
          moved req.to_user_id
          ∙ rw
              (requested-pair_other req.from_user_id req.to_user_id (neg64 a) users.distinct
                users.to_user)
              (omega int_laws)),
    )
