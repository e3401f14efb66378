-- ===== src/Lib.antt =====
-- Koven: credit and policy infrastructure for agents that pay x402 services on Hedera, a TypeScript
-- monorepo. Paths below are from the root of the repository.
--
-- An orchestrator runs missions. A mission pays one service; the payment is signed by a restricted
-- signer that holds the borrower's key, against a policy that the operator has registered with it.
-- Lenders fund missions, and a loan is repaid by the signer. Each service has a SQLite database of its
-- own with the tables of packages/persistence; the signer adds tables to its database.
--
-- Which file models what:
--   Prelude                 shared names, tests, lists, and integers for bigint
--   Exec                    code that may throw over a database; transactions
--   Sql                     SELECT, UPDATE and uniqueness on a table as a list of rows
--   Domain                  packages/domain/src: mission states and transitions, loans, error codes
--   Persistence             packages/persistence/src: Db is the schema, Missions, Nonces, Loans and
--                           Idempotency the functions of the files of those names, Budget the
--                           invariant of what is spent, Events and Outbox the events with
--                           their outbox, a part of which is in packages/audit/src, Completions the
--                           two tables of mission-completions.ts
--   Audit                   packages/audit/src/writer.ts: the worker that publishes the outbox
--   CreditProtocol          packages/credit-protocol/src: the checks of offers and acceptances, the terms
--                           of repayment, and the decision of agents/lenders/src/policy.ts to lend
--   Signer                  services/restricted-signer/src: Types has the rows, Store one module for
--                           each part of store.ts, Safety the invariant of the store and its histories,
--                           Repay, Gate, Complete and Credit the services of repay.ts, gate.ts,
--                           completion.ts and credit.ts, Ledger the confirmation of ledger.ts
--   X402                    packages/x402/src/challenge.ts: the challenge of a payment
--   Proof                   packages/zk-policy/src/verify.ts, and its callers in the signer's proof.ts and
--                           in agents/lenders/src/verify.ts
--   Lender                  agents/lenders/src: Store is store.ts, Fund the funding service of fund.ts, Server
--                           the handlers of server.ts
--   Provider                services/resource-server/src: Types, Payments, Settlements and Callbacks are
--                           outbox.ts, Life the moves of a payment and what holds over every history of
--                           the store, Authorization the checks of authorization.ts, Scan and Server the
--                           scan service and the handler of server.ts, Dispatch the dispatcher of
--                           callback.ts, Confirm the confirmation of settlement.ts
--   Orchestrator            apps/orchestrator/src: Machine is state/mission-state-machine.ts, Completion
--                           is callbacks/completion.ts, Repay is workflows/repay.ts
--   Tests                   runs at concrete inputs, and an instance of each theorem that has hypotheses
--
-- How state corresponds: a table is the list of its rows, the latest insert in front (no query here
-- depends on the order of rows without an ORDER BY). A function that takes the database is an action
-- `Db -> Result A x Db`, which keeps what was written before a throw; `transaction` rolls back. A unique
-- or primary key is a test before the insert, made before the foreign keys as SQLite makes it. An
-- amount of type bigint is an integer; a column of canonical decimal text holds the number, and the
-- range tests of tinybarToText and tinybarFromText stay. Columns of JSON hold the value that was
-- serialized. Times and identifiers are texts that are only compared, and times in milliseconds numbers.
--
-- Parameters: canonicalHash (SHA-256 of canonical JSON) and the verdict of a zod schema are arguments
-- of the definitions that use them, as are the verdict on a signature, the regular expression of a hash,
-- the length of a JSON text, Date.parse and a test on floats, with nothing assumed of them where a result does not say so. What the
-- ledger, a gateway and the clock answer to a call of a service is an argument of the call. So are
-- signatures, MACs, Poseidon and Groth16, the bytes of a transfer, and what a schema reads from a body.
-- A call of a service runs to its end: between its awaits nothing else runs on its state, except in
-- Provider/Server, where any calls of the store run at each wait, and in Orchestrator and Audit, where
-- others change the tables at each wait. The histories of a store are of its
-- single calls, in any order.
--
-- Not modelled: HTTP, configuration, logging, the web dashboard, scripts, the ledger and its SDK, the
-- prover, and so far the orchestrator's mission workflow, the consumer agent, the selection
-- of providers and offers, and the client of x402.
pub mod Prelude
pub mod Domain
pub mod Exec
pub mod Sql
pub mod Persistence
pub mod CreditProtocol
pub mod Lender
pub mod Orchestrator
pub mod Provider
pub mod Audit
pub mod X402
pub mod Proof
pub mod Signer
pub mod Tests
