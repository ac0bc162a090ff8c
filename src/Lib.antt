-- ===== src/Lib.antt =====
-- Verification of the fintech ecosystem: the ledger and its clients (wallet, payments), what guards
-- them (circuit breaker, rate limits, fraud rules, policies) and drives them (flows), identity
-- (accounts, API keys, OAuth, scopes), billing, the audit chain and failing deliveries.
--
-- The parts and how they interact. `Ledger` is double-entry bookkeeping over SQL tables
-- (internal/ledger); its gRPC server and its Kafka consumer (cmd/ledger) both end in
-- `RecordTransaction`. The wallet (internal/wallet) and the payment handlers (cmd/payments) are
-- clients of the gRPC server: the model calls the server's function directly, and passes the
-- ledger's state on. Flows (internal/flow) run a graph of nodes, and record approvals in the ledger.
-- Identity (internal/auth, cmd/auth) keeps users, keys and tokens in tables of its own, with a cache of
-- the keys; the other services ask it who calls. Billing (internal/billing) renews subscriptions
-- through a payment client. Retries and dead letters (pkg/retry, pkg/webhook) and the audit log
-- (pkg/audit) stand by themselves.
--
-- Files and code:
--   Base, Base/Tests, Base/Lists, Base/Int: shared names, Boolean tests, lists and int64
--   Ledger/Model: internal/ledger/domain/models.go
--   Ledger/Store: internal/ledger/infrastructure/sql_repository.go (`SQLRepository`, `sqlTxContext`)
--   Ledger/Service: internal/ledger/domain/service.go (`LedgerService`)
--   Ledger/Grpc: cmd/ledger/grpc.go (`LedgerGRPCServer`)
--   Ledger/Events: cmd/ledger/events.go (the handler in `StartKafkaConsumer`)
--   Ledger/Posting, Replay, Conservation, Trial, Refinement, Pair, Currency: proofs on these
--   Wallet: internal/wallet/domain/service.go (`WalletService`), with proofs in Wallet/Transfer
--   Payment/Store: internal/payment (`PaymentIntent`, `IdempotencyRecord`, `SQLRepository`)
--   Payment/Handlers: cmd/payments/handlers.go (`PaymentHandler`) and `WriteErrorJSON` of
--     pkg/jsonutil/json.go
--   Payment/Split, Lifecycle, Settlement, Keys, Idempotency: proofs on these
--   Resilience/Breaker: pkg/resilience/breaker.go, with proofs in Breaker/Invariant and Breaker/Trip
--   Guard/Limiter: pkg/ratelimit/limiter.go and tenant.go, with proofs in Limiter/Window and
--     Limiter/Paths
--   Guard/Fraud: internal/fraud/engine.go and rules.go, with proofs in Fraud/Velocity
--     and Fraud/Risk
--   Guard/Policy: internal/policy/hardcoded.go and json.go, with proofs in Policy/Rules
--   Flow/Model, Flow/Runner, Flow/Resume: internal/flow/domain/models.go and runner.go
--   Flow/Approvals: internal/flow/domain/approval_ledger.go
--   Flow/Termination, Loop, Decisions: proofs on these
--   Auth/Model, Store, Tables: internal/auth/domain/models.go and
--     internal/auth/infrastructure/sql_repository.go (`SQLRepository`)
--   Auth/Service: internal/auth/domain/service.go (`AuthService`), with proofs in Service/Accounts
--   Auth/Oauth, Auth/Authorize: the OAuth handlers of cmd/auth/handlers.go
--   Auth/Handlers, Auth/Recovery: its account handlers (`Register`, `Login`, `SSOCallback`;
--     `ForgotPassword`, `ResetPassword`, `VerifyEmail`, `ResendVerification`)
--   Auth/Keys: pkg/apikey, internal/auth/infrastructure/cache_repository.go, the key handlers and
--     `ValidateKey` of cmd/auth/grpc.go
--   Auth/Teams: the rest of cmd/auth/grpc.go, and `CreateOrganization`
--   Auth/Exchange, Grant, Sessions, KeyLife: proofs on these
--   Scopes: pkg/scopes/scopes.go, with proofs in Scopes/Words
--   Billing/Calendar, Store, Service, Worker: internal/billing, with proofs in Billing/Renewal and
--     Billing/Charges
--   Audit: pkg/audit/secure.go (`SecureLogger`), with proofs in Audit/Chain, Audit/Zones
--     and Audit/Breaks
--   Delivery/Dlq: pkg/webhook/dlq.go (`DeadLetterQueue`), with proofs in Delivery/Exhaustion
--   Delivery/Retry: pkg/retry/retry.go (`Retrier`), with proofs in Delivery/Attempts
--   Zones: internal/zone (`Service`, `SQLRepository` behind `CachedRepository`), with proofs in
--     Zones/Rows, Zones/Entries and Zones/Coherence
--   Tests: the theorems at concrete inputs
--
-- State and errors. A struct is a record, a table a list of rows in the order of their insertion,
-- and an operation a function of the state that returns the new one; an error is a value. What the
-- database, the bank, the broker, the clock and the token library do is a parameter: `Env`, `PayEnv`
-- and `FlowEnv` say which statements are refused, which ids rows get and what is answered, and
-- every time that is read is an argument. A method that holds a lock is one step.
--
-- Numbers. An int64 is an integer with its wrap-around written out (`wrap64`); counters of the
-- circuit breaker wrap at 32 and 64 bits; times are nanoseconds since the epoch, as natural numbers.
-- What a time column keeps is a parameter of the audit log (`kept_time`; PostgreSQL keeps
-- microseconds), whose signatures depend on it; the other tables give times back as they were given.
--
-- Fuel. `executeNode` recurses along the edges of a flow, which may have cycles, so it takes fuel and
-- says when it runs out; on a flow without cycles a rank of the nodes bounds what it needs.
--
-- Not modelled: the account cache of ten minutes that cmd/ledger/main.go puts in front of
-- `SQLRepository` (an account is read from the table here), a connection that is lost while the
-- database commits, the order of a query without ORDER BY (rows come in the order of the table);
-- creation times, log lines, tracing and Prometheus counters; paged listings; the HTTP
-- middleware of the rate limiter and errors of Redis; hooks of the flow runner; the debug handlers of
-- cmd/auth; the delays of pkg/retry, which are floating-point numbers; the gateway, zone
-- templates, notifications, webhook sending, the reconciler, the flow debugger and the command line.
pub mod Base
pub mod Ledger
pub mod Wallet
pub mod Payment
pub mod Resilience
pub mod Guard
pub mod Flow
pub mod Audit
pub mod Auth
pub mod Billing
pub mod Delivery
pub mod Scopes
pub mod Zones
mod Tests
