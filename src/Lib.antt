-- ===== src/Lib.antt =====
-- The core of the Orbi institutional banking backend: the rules that decide whether money may move,
-- and how its parts behave when a provider, a step or a check fails.
--
-- Ledger.
-- * Lifecycle is `TransactionStateMachine` of backend/ledger/stateMachine.ts: `transition`,
--   `getNextState`, `isTerminal` and the table of transitions, on the statuses of types.ts.
-- * Saga is `SagaOrchestrator` of the same file: `addStep`, `execute` and `compensate` over a context
--   of any type, with the steps' callbacks as arguments.
-- * Financial is backend/ledger/financialInvariants.ts: who may settle, who may be reversed, and the
--   names given to errors of the SQL authority. `Financial.Eligibility` sets its guards beside the
--   table of Lifecycle.
-- * Review is the review and the reversal of transactions in ledger/transactionService.ts: the posting
--   with its legs, `updateTransactionStatus` and `reverseTransaction` (`Review.Ledger`), the lock, the
--   audit, the approval and the reversal with a reason (`Review.Flow`), and the rounds over held
--   transactions (`Review.Rounds`). Whether an update of a status is refused, and what is thrown after one, are
--   arguments. It uses the table of Lifecycle and the guard of Financial.
-- * Escrow is `EscrowService` of ledger/escrowService.ts: the guards of the four actions, the sweep of
--   expired agreements and the actions that are offered (`Escrow`), the checks, vaults and fee of
--   `createEscrow` (`Escrow.Terms`), and its posting (`Escrow.Create`), which is that of Review. The
--   fee is that of Fees. What the SQL functions make of an agreement is not modelled.
-- Providers.
-- * Retry is `ProviderRetryPolicy` of backend/payments/providers/ProviderRetryPolicy.ts with
--   ProviderErrorNormalizer.ts beside it (`Retry.Errors`): circuit breakers, the bulkhead, and the retry
--   loop around a call of a provider.
-- * Resilience is `ResilienceEngineService` of backend/infrastructure/ResilienceEngine.ts: the circuits of
--   services, and the cycle that heals them.
-- Settlement.
-- * Settlement is `SettlementLifecycleManager` of backend/payments/settlementLifecycleManager.ts, the
--   life of an external payment: `recordExternalPayment` (`Settlement.Record`), `startReconciliation`
--   (`Settlement.Reconcile`) and `commitToInternalLedger` (`Settlement.Commit`) on one row of the
--   settlements, the ledger and the audit log (`Settlement.State`). What other workers do in between,
--   which statements the database refuses and which logs throw, are arguments; so are the platform fee, its account and the
--   ledger, whose code is elsewhere.
-- * Fees is `PlatformFeeService` of backend/payments/PlatformFeeService.ts: `selectBestConfig`
--   (`Fees.Select`), `computeFromConfig` and `resolveFee` (`Fees.Compute`), `listConfigs` with its two
--   caches (`Fees.Catalog`), whose calls take time on the way to Redis and to the database, and
--   `upsertConfig` (`Fees.Update`). `Fees.Best` states the contract of the
--   choice without filters or sort. Rates are exact decimals in millionths, amounts in hundredths, and
--   `Math.round` is a division (`round_div`).
-- Limits.
-- * Cache is `RedisManager` of backend/enterprise/infrastructure/RedisManager.ts without a Redis client:
--   its maps and the timers of `setTimeout` (`Cache.Timers`). The record `Cache` holds the laws that its
--   clients rely on while no key expires; `memory_cache` fills it.
-- * Policy is `PolicyEngine` of backend/ledger/PolicyEngine.ts over any such cache, with the configured
--   limits and the conversion to US dollars as arguments.
-- * Idempotency is src/middleware/security/idempotency.ts: the fingerprint of a request, the stores, and
--   the middleware, over any Redis client and any hash of the body.
-- * Locking is `LockManager` of backend/enterprise/infrastructure/LockManager.ts: `acquireLocks`,
--   `releaseLocks` and `withLock` over the table of locks (`Locking.Table`). The attempts that are left
--   bound its outer loop: one more than the retries, as in the source.
-- * Risk is `FraudSentinelService` of backend/ledger/fraudEngine.ts (`Risk`) and `RulesEngine` of
--   ledger/rulesEngine.ts (`Risk.Rules`): the flags of the screening, the rules of each domain, and the
--   fusion of the scores into a decision. `Risk.Facts` says what the rules test, of the user, the payment
--   and the history. The score of the model and the configuration are arguments.
-- Jobs.
-- * Broker is `WorkerNodeService` of BROKER/InternalBroker.ts, the queue of background jobs: the claim of
--   a job, the work on it with its end (`Broker.Work`), the rounds over the table and the retries
--   (`Broker.Rounds`), and the Redis structures of backend/infrastructure/RedisStreams.ts
--   (`Broker.Streams`). The work takes time, and what other workers do between the two halves of a claim
--   is an argument. Workers interleave at the claims and the ends of work (`Broker.Attempts`), and at the
--   two halves of a claim (`Broker.Claims`).
-- Classification.
-- * Movement is backend/transactions/movement: the rules of movementRules.ts, the owners of the two sides
--   (`Movement.Owners`) and `TransactionMovementClassifier.classify` (`Movement.Families`).
-- * FeeClass is backend/payments/TransactionFeeClassifier.ts: `classify` with its resolvers, and
--   `resolveProviderOperation`.
--
-- State is passed explicitly: a method takes the record of the object's fields and returns the new
-- one. The clock, the provider's answers and the callbacks are arguments. A retry loop recurs on the
-- attempts that are left, `max_attempts` at the start, which is what the source's counter allows. Texts
-- are lists of character codes (`Prelude.Text`), whose letters have a case if they are ASCII; maps are
-- association lists in insertion order (`Prelude.Dict`). Amounts are whole numbers of a smallest unit:
-- the source's floating point is not modelled, nor is its rounding but in Fees and Risk. Log lines are
-- left out.
--
-- Not modelled: the check of a locked FX quote (backend/ledger/FXLockedQuote.ts), which compares with a
-- tolerance in floating point; the services that are mostly calls of the database (the rest of
-- ledger/transactionService.ts, backend/ledger/transactionEngine.ts), the providers' adapters, the routes, the
-- cryptography, and the SQL; their answers are arguments where the parts above use them.
pub mod Broker
pub mod Cache
pub mod Locking
pub mod Escrow
pub mod FeeClass
pub mod Fees
pub mod Movement
pub mod Idempotency
pub mod Policy
pub mod Resilience
pub mod Prelude
pub mod Lifecycle
pub mod Retry
pub mod Risk
pub mod Review
pub mod Settlement
pub mod Financial
pub mod Saga
