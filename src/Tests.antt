-- ===== src/Tests.antt =====
-- Runs of the model at concrete inputs, and the theorems at inputs that meet their hypotheses.
mod Samples
mod Budget
mod Lifecycle
mod Signer
mod Outbox
mod Closing
mod Credit
mod Transition
mod Gate
mod Completion
mod Loan
mod Lender
mod Machine
mod Ledger
mod Provider
mod Callback
mod Writer
mod Repay
