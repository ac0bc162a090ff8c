-- ===== src/Ledger/Pair.antt =====
-- The pair of entries that the gRPC server and the Kafka consumer build from one amount.
use fintech_ecosystem.Base.{
  zero, suc, ◌<◌, String, ◌+◌, ◌≡◌, refl, sym, ◌≢◌, Option, none, some, str_eq_ne, str_eq_self,
  arith,
}
use fintech_ecosystem.Base.Int.{
  ℤ, pos, negsuc, pos_part, neg_part, ◌+ℤ◌, ◌-ℤ◌, int_laws, IsInt64, wrap64, wrap64_of_IsInt64,
  neg64,
}
use fintech_ecosystem.Ledger.Store.{ok, Env, Error, balance}
use fintech_ecosystem.Ledger.Replay.{Effect, record_transaction-Effect}
use fintech_ecosystem.Ledger.Service.{check_balanced, LedgerService, record_transaction}
use fintech_ecosystem.Ledger.Posting.{existing}
use fintech_ecosystem.Ledger.Trial.{record_transaction_moves}
use fintech_ecosystem.Ledger.Conservation.{sum, IsMultiple, check_balanced_iff, requested}
use fintech_ecosystem.Ledger.Grpc.{
  RecordTransactionRequest, RecordTransactionResponse, reply, failed, recorded_reply, balanced_pair,
  system_balancing, transaction_request, serve_record,
}

-- An amount whose negation is an int64 too.
abbrev pub IsAmount : ℤ → Type 0
IsAmount a = (pos_part a < 9223372036854775808) × (neg_part a < 9223372036854775808)

neg_IsInt64 : (a : ℤ) → IsAmount a → IsInt64 (pos 0 -ℤ a)
unfolding ◌-ℤ◌
neg_IsInt64 (pos zero) h = ground arith
neg_IsInt64 (pos (suc n)) h = ground arith
neg_IsInt64 (negsuc n) h = ground arith

pub neg64-eq : (a : ℤ) → IsAmount a → neg64 a ≡ pos 0 -ℤ a
unfolding neg64
neg64-eq a h = wrap64_of_IsInt64 (pos 0 -ℤ a) (neg_IsInt64 a h)

-- The negation in terms that `omega` reads.
pub neg64_parts :
    (a : ℤ) → IsAmount a → pos_part (neg64 a) + pos_part a ≡ neg_part (neg64 a) + neg_part a
neg64_parts a h = rw (neg64-eq a h) (omega int_laws)

pub neg64-add : (a : ℤ) → IsAmount a → neg64 a +ℤ a ≡ pos 0
neg64-add a h = rw (neg64-eq a h) (omega int_laws)

pub add-neg64 : (a : ℤ) → IsAmount a → a +ℤ neg64 a ≡ pos 0
add-neg64 a h = rw (neg64-eq a h) (omega int_laws)

pair_sum : (a : ℤ) → IsInt64 a → IsMultiple (a +ℤ (neg64 a +ℤ pos 0))
unfolding neg64 wrap64 ◌+ℤ◌ ◌-ℤ◌
pair_sum (pos zero) h = ground arith
pair_sum (pos (suc n)) h = ground arith
pair_sum (negsuc n) h = ground arith

-- The pair of entries passes the balance check for every int64 amount.
pub balanced_pair_passes :
    (id : String) (amount : ℤ) → IsInt64 amount → check_balanced (balanced_pair id amount) ≡ ok tt
unfolding sum
balanced_pair_passes id amount h =
    (check_balanced_iff (balanced_pair id amount)).1 (pair_sum amount h)

pub requested-pair_own :
    (id : String) (amount : ℤ)
    → id ≢ system_balancing
    → requested id (balanced_pair id amount) ≡ amount
unfolding requested
requested-pair_own id amount other =
    rw (str_eq_self id, str_eq_ne system_balancing id (λ e. other (sym e))) (omega int_laws)

pub requested-pair_system :
    (id : String) (amount : ℤ)
    → id ≢ system_balancing
    → requested system_balancing (balanced_pair id amount) ≡ neg64 amount
unfolding requested
requested-pair_system id amount other = rw (str_eq_ne id system_balancing other) (omega int_laws)

-- The request of a gRPC call has no transaction yet.
abbrev pub IsNew : RecordTransactionRequest → LedgerService → Type 0
IsNew req s = existing (transaction_request req) s.db ≡ ""

-- A gRPC call that is answered, with a new reference id, moves the amount from `system_balancing`
-- to the named account; no third account changes.
pub serve_record_moves :
    (env : Env) (req : RecordTransactionRequest) (s : LedgerService) (id : String)
    {r : RecordTransactionResponse}
    → IsNew req s
    → (serve_record env req s).0 ≡ reply r
    → balance id (serve_record env req s).1.db.entries
      ≡ balance id s.db.entries +ℤ requested id (balanced_pair req.account_id req.amount)
unfolding serve_record
serve_record_moves env req s id new answered =
    record_transaction_moves env (transaction_request req) req.zone_id req.mode s id new (
      no_error (record_transaction env (transaction_request req) req.zone_id req.mode s).0 answered)
  where
    no_error :
        (e : Option Error) {r : RecordTransactionResponse} → recorded_reply e ≡ reply r → e ≡ none
    no_error none h = refl
    no_error (some e) h = cc

-- A gRPC call that fails leaves the database alone.
pub serve_record_failed :
    (env : Env) (req : RecordTransactionRequest) (s : LedgerService) {e : Error}
    → (serve_record env req s).0 ≡ failed e
    → (serve_record env req s).1.db ≡ s.db
unfolding serve_record
serve_record_failed env req s h =
    kept (record_transaction env (transaction_request req) req.zone_id req.mode s)
      (record_transaction-Effect env (transaction_request req) req.zone_id req.mode s) h
  where
    kept :
        (r : Option Error × LedgerService)
        → Effect env (transaction_request req) req.zone_id req.mode s r
        → {e : Error} → recorded_reply r.0 ≡ failed e
        → r.1.db ≡ s.db
    kept (none, s') effect bad = cc
    kept (some x, s') effect _ = effect.0

pub requested-pair_other :
    (id third : String) (amount : ℤ)
    → id ≢ third
    → third ≢ system_balancing
    → requested third (balanced_pair id amount) ≡ pos 0
unfolding requested
requested-pair_other id third amount other not_system =
    rw (str_eq_ne id third other, str_eq_ne system_balancing third (λ e. not_system (sym e)))
