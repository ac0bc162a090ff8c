-- ===== src/Wallet.antt =====
-- internal/wallet/domain/service.go: the wallet, a client of the ledger's gRPC server
-- (internal/wallet/infrastructure/ledger_client.go passes the calls on).
pub mod Transfer
use fintech_ecosystem.Base.{String, ◌<>◌, Option, none, some}
use fintech_ecosystem.Base.Int.{ℤ, neg64}
use fintech_ecosystem.Ledger.Store.{Db, Env, Error}
use fintech_ecosystem.Ledger.Service.{LedgerService}
use fintech_ecosystem.Ledger.Grpc.{
  RecordTransactionRequest, RecordTransactionResponse, Reply, reply, failed, panic,
  GetAccountResponse, serve_record, serve_get_account,
}

pub record Wallet : Type 0 where
  pub id : String
  pub user_id : String
  pub balance : ℤ
  pub currency : String

pub record TopUpRequest : Type 0 where
  pub user_id : String
  pub amount : ℤ
  pub currency : String
  pub reference_id : String

pub record TransferRequest : Type 0 where
  pub from_user_id : String
  pub to_user_id : String
  pub amount : ℤ
  pub currency : String
  pub reference_id : String

pub data WalletError : Type 0 where
  ledger_error debit_failed credit_failed : Error → WalletError
  -- the server answered the call with a panic
  unavailable : WalletError

pub data Answer (A : Type 0) : Type 0 where
  answer : A → Answer A
  refused : WalletError → Answer A

abbrev pub wallet_of : String → Reply GetAccountResponse → Answer Wallet
wallet_of user_id (reply res) = answer (record {
  id = res.account_id;
  user_id = user_id;
  balance = res.balance;
  currency = res.currency;
})
wallet_of user_id (failed e) = refused (ledger_error e)
wallet_of user_id panic = refused unavailable

-- `WalletService.GetWallet`
unfoldable pub get_wallet : Env → String → Db → Answer Wallet
get_wallet env user_id db = wallet_of user_id (serve_get_account env user_id db)

-- The zone and the mode are not set, so they are the empty text.
abbrev pub top_up_request : TopUpRequest → RecordTransactionRequest
top_up_request req = record {
  account_id = req.user_id;
  amount = req.amount;
  currency = req.currency;
  description = "Wallet Top-Up";
  reference_id = req.reference_id;
  zone_id = "";
  mode = "";
}

abbrev pub answer_of :
    (Error → WalletError) → Reply RecordTransactionResponse → Answer RecordTransactionResponse
answer_of f (reply res) = answer res
answer_of f (failed e) = refused (f e)
answer_of f panic = refused unavailable

-- `WalletService.TopUp`
unfoldable pub top_up :
    Env → TopUpRequest → LedgerService → Answer RecordTransactionResponse × LedgerService
top_up env req s =
    let (r, s') = serve_record env (top_up_request req) s in (answer_of ledger_error r, s')

abbrev pub debit_request : TransferRequest → RecordTransactionRequest
debit_request req = record {
  account_id = req.from_user_id;
  amount = neg64 req.amount;
  currency = req.currency;
  description = "Transfer to " <> req.to_user_id;
  reference_id = req.reference_id <> "_debit";
  zone_id = "";
  mode = "";
}

abbrev pub credit_request : TransferRequest → RecordTransactionRequest
credit_request req = record {
  account_id = req.to_user_id;
  amount = req.amount;
  currency = req.currency;
  description = "Transfer from " <> req.from_user_id;
  reference_id = req.reference_id <> "_credit";
  zone_id = "";
  mode = "";
}

-- What follows the debit: the credit, or the return of the debit's error.
abbrev pub after_debit :
    Env
    → TransferRequest
    → Reply RecordTransactionResponse × LedgerService
    → Answer RecordTransactionResponse × LedgerService
after_debit env req (reply _, s) =
    let (r, s') = serve_record env (credit_request req) s in (answer_of credit_failed r, s')
after_debit env req (failed e, s) = (refused (debit_failed e), s)
after_debit env req (panic, s) = (refused unavailable, s)

-- `WalletService.Transfer`: a debit, then a credit, each a transaction of its own.
unfoldable pub transfer :
    Env → TransferRequest → LedgerService → Answer RecordTransactionResponse × LedgerService
transfer env req s = after_debit env req (serve_record env (debit_request req) s)
