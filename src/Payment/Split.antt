-- ===== src/Payment/Split.antt =====
-- What the ledger keeps of a split payment (cmd/payments/handlers.go, "Record in Ledger via gRPC").
use fintech_ecosystem.Base.{◌≡◌, refl, ◌∙◌, ◌≢◌, Option, none, some}
use fintech_ecosystem.Ledger.Store.{Env, Error}
use fintech_ecosystem.Ledger.Service.{LedgerService, record_transaction}
use fintech_ecosystem.Ledger.Posting.{existing}
use fintech_ecosystem.Ledger.Replay.{GivesIds, HasIds, existing_after, record_transaction_there}
use fintech_ecosystem.Ledger.Grpc.{
  RecordTransactionRequest, RecordTransactionResponse, reply, recorded_reply, transaction_request,
  serve_record,
}
use fintech_ecosystem.Payment.Store.{PaymentIntent}
use fintech_ecosystem.Payment.Handlers.{net_request, fee_request, customer_request, record_split}

pub serve_record_there :
    (env : Env) (req : RecordTransactionRequest) (s : LedgerService)
    → existing (transaction_request req) s.db ≢ ""
    → (serve_record env req s).1.db ≡ s.db
unfolding serve_record
serve_record_there env req s there =
    record_transaction_there env (transaction_request req) req.zone_id req.mode s there

serve_record_after :
    (env : Env) (req : RecordTransactionRequest) (s : LedgerService) {r : RecordTransactionResponse}
    → GivesIds env
    → HasIds s.db
    → (serve_record env req s).0 ≡ reply r
    → existing (transaction_request req) (serve_record env req s).1.db ≢ ""
unfolding serve_record
serve_record_after env req s gives ids answered =
    existing_after env (transaction_request req) req.zone_id req.mode s gives ids (
      no_error (record_transaction env (transaction_request req) req.zone_id req.mode s).0 answered)
  where
    no_error :
        (e : Option Error) {r : RecordTransactionResponse} → recorded_reply e ≡ reply r → e ≡ none
    no_error none h = refl
    no_error (some e) h = cc

-- The three ledger calls of a split payment carry one reference id, so once the first, the net
-- amount, is answered, the fee and the customer's debit change nothing.
pub record_split_net_only :
    (env : Env) (intent : PaymentIntent) (s : LedgerService) {r : RecordTransactionResponse}
    → GivesIds env
    → HasIds s.db
    → (serve_record env (net_request intent) s).0 ≡ reply r
    → (record_split env intent s).db ≡ (serve_record env (net_request intent) s).1.db
unfolding record_split
record_split_net_only env intent s gives ids answered =
    let s1 = (serve_record env (net_request intent) s).1 in
    let s2 = (serve_record env (fee_request intent) s1).1 in
    let there = serve_record_after env (net_request intent) s gives ids answered in
    let same : s2.db ≡ s1.db = serve_record_there env (fee_request intent) s1 there in
    let there' : existing (transaction_request (customer_request intent)) s2.db ≢ "" =
      rw same there in
    serve_record_there env (customer_request intent) s2 there' ∙ same
