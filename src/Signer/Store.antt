-- ===== src/Signer/Store.antt =====
-- services/restricted-signer/src/store.ts.
pub mod Codes
pub mod Policy
pub mod Authorization
pub mod Credit
pub mod Loan
pub mod Completion
pub mod Repayment
